-- ===== src/Examples/Accepted.antt =====
-- What the programs accept as options.
use axidma_driver.Common.{
  ◌==◌, ◌≡◌, refl, Bool, true, false, ◌&&◌, not, List, [], ◌∷◌, Bool-cases, inl, inr,
}
use axidma_driver.Examples.Measuring.{no_channel}
use axidma_driver.Examples.Arguments.{Scan, Parsed, rejected, exits, parsed, and_parse, differ}
use axidma_driver.Examples.Transfer.{TransferOptions}
use axidma_driver.Examples.Display.{ImageOptions}
use axidma_driver.Examples.Invocations.{
  TransferLetter, ImageLetter, TransferSettings, two_paths, one_path, transfer_checks,
  parse_transfer, parse_image, transfer_loop, image_loop, transfer_defaults, image_defaults,
  is_positive, no_words,
}

-- What is accepted has the property.
abbrev Accepts : {A : Type 0} → (A → Type 0) → Parsed A → Type 0
Accepts Q (parsed a) = Q a
Accepts Q (rejected e) = Unit {0}
Accepts Q exits = Unit {0}

then-Accepts :
    {A B : Type 0} (Q : B → Type 0) (o : Parsed A) (f : A → Parsed B)
    → ((a : A) → Accepts Q (f a))
    → Accepts Q (and_parse o f)
then-Accepts Q (parsed a) f h = h a
then-Accepts Q (rejected e) f h = tt
then-Accepts Q exits f h = tt

differ-false : (x y : Bool) → differ x y ≡ false → x ≡ y
differ-false true true h = refl
differ-false true false h = absurd (cc)
differ-false false true h = absurd (cc)
differ-false false false h = refl

not-false : (x : Bool) → not x ≡ false → x ≡ true
not-false true h = refl
not-false false h = absurd (cc)

module _ {Text Double : Type 0} (scan : Scan Text Double) where
  -- Both channels or none, and two paths.
  abbrev pub Transferable : List Text → TransferOptions × Text × Text → Type 0
  Transferable paths (o, input_path, output_path) =
      ((o.input_channel == no_channel) ≡ (o.output_channel == no_channel))
      × (paths ≡ input_path ∷ output_path ∷ [])

  two_paths-Accepts :
      (o : TransferOptions) (paths : List Text)
      → (o.input_channel == no_channel) ≡ (o.output_channel == no_channel)
      → Accepts (Transferable paths) (two_paths o paths)
  unfolding two_paths
  two_paths-Accepts o [] e = tt
  two_paths-Accepts o (x ∷ []) e = tt
  two_paths-Accepts o (x ∷ (y ∷ [])) e = (e, refl)
  two_paths-Accepts o (x ∷ (y ∷ (z ∷ rest))) e = tt

  checks-Accepts :
      (paths : List Text) (x : TransferSettings)
      → Accepts (Transferable paths) (transfer_checks scan paths x)
  unfolding transfer_checks
  checks-Accepts paths x =
      let o = x.transfer in
      elim (Bool-cases (differ (o.input_channel == no_channel) (o.output_channel == no_channel))) [
        | inl y ↦ rw y tt
        | inr n ↦ elim (Bool-cases (x.s_specified && x.o_specified)) [
          | inl y' ↦ rw (n, y') tt
          | inr n' ↦ rw (n, n') (two_paths-Accepts o paths (differ-false _ _ n))
        ]
      ]

  -- The options of the transfer that are accepted name both channels or none, and two paths.
  pub parse_transfer-Accepts :
      (args : List (TransferLetter × Text)) (paths : List Text)
      → Accepts (Transferable paths) (parse_transfer scan args paths)
  unfolding parse_transfer
  parse_transfer-Accepts args paths =
      then-Accepts (Transferable paths) (transfer_loop scan args transfer_defaults)
        (transfer_checks scan paths) (checks-Accepts paths)

  -- A width and a height above 0, and one path.
  abbrev pub Displayable : List Text → ImageOptions × Text → Type 0
  Displayable paths (o, image_path) =
      (is_positive o.image_width ≡ true)
      × (is_positive o.image_height ≡ true)
      × (paths ≡ image_path ∷ [])

  one_path-Accepts :
      (o : ImageOptions) (paths : List Text) → Accepts (Displayable paths) (one_path o paths)
  unfolding one_path
  one_path-Accepts o [] = tt
  one_path-Accepts o (x ∷ (y ∷ rest)) = tt
  one_path-Accepts o (x ∷ []) = elim (Bool-cases (not (is_positive o.image_width))) [
    | inl y ↦ rw y tt
    | inr n ↦ elim (Bool-cases (not (is_positive o.image_height))) [
      | inl y' ↦ rw (n, y') tt
      | inr n' ↦ rw (n, n') (not-false _ n, not-false _ n', refl)
    ]
  ]

  -- The options of the display that are accepted have a width and a height above 0, and one path.
  pub parse_image-Accepts :
      (args : List (ImageLetter × Text)) (paths : List Text)
      → Accepts (Displayable paths) (parse_image scan args paths)
  unfolding parse_image
  parse_image-Accepts args paths = elim (Bool-cases (no_words args paths)) [
    | inl y ↦ rw y tt
    | inr n ↦ rw n (
        then-Accepts (Displayable paths) (image_loop scan args image_defaults) _
          (λ o. one_path-Accepts o paths))
  ]
