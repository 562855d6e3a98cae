-- ===== src/Setup/Reserve.antt =====
-- The channels are reserved all or none: a channel that is not to be had gives the others back.
use mathlib.Core.Option.{some-injective}
use native.Mathlib.Nat.{add-zero}
use axidma_driver.Common.{
  ℕ, zero, suc, ◌+◌, ◌≤◌, get_elem?-lt, ◌==◌, ◌≡◌, ◌≢◌, ◌∙◌, refl, sym, ap, subst, inl, inr,
  if◌then◌else◌, some, List, [], ◌∷◌, All, arith, length, get_elem?, get_elem?-set, set, take,
  length-set, take-set, take-length, ==_ne, Bool-cases,
}
use axidma_driver.Types.{AxidmaChan}
use axidma_driver.Kernel.{Kernel, Event, Trace, State, ok, log}
use axidma_driver.Kernel.Ends
use axidma_driver.Kernel.Ends.{Attempt, done, failed}
use axidma_driver.DeviceTree.{write_chan, store_chan}
use axidma_driver.Setup.Channels.{
  release_found, release_rounds, dma_request_slave_channel, request_found, request_rounds,
  axidma_request_channels,
}

-- 1 if the two channels are the same.
abbrev pub here : (chan p : ℕ) → ℕ
here chan p = if p == chan then 1 else 0

-- How often the engine has given the channel, and how often it was given back.
abbrev pub requested : ℕ → Trace → ℕ
requested chan [] = 0
requested chan (Event.dma_request_slave_channel name p ∷ tr) = here chan p + requested chan tr
requested chan (_ ∷ tr) = requested chan tr

abbrev pub released : ℕ → Trace → ℕ
released chan [] = 0
released chan (Event.dma_release_channel p ∷ tr) = here chan p + released chan tr
released chan (_ ∷ tr) = released chan tr

-- How many entries of the array have the channel.
abbrev pub uses : ℕ → List AxidmaChan → ℕ
uses chan [] = 0
uses chan (c ∷ cs) = here chan c.chan + uses chan cs

pub uses-take :
    (chan : ℕ) (cs : List AxidmaChan) (i : ℕ) (c : AxidmaChan)
    → get_elem? cs i ≡ some c
    → uses chan (take (suc i) cs) ≡ uses chan (take i cs) + here chan c.chan
uses-take chan [] i c h = absurd (cc)
uses-take chan (x ∷ xs) zero c h =
    omega (arith, ap (λ (y : AxidmaChan). here chan y.chan) (some-injective _ _ h))
uses-take chan (x ∷ xs) (suc i) c h = omega (arith, uses-take chan xs i c h)

All-take {ℓ} :
    {A : Type 0} (P : A → Type ℓ) (xs : List A) (i : ℕ) (x : A)
    → get_elem? xs i ≡ some x
    → P x
    → All P (take i xs)
    → All P (take (suc i) xs)
All-take P [] i x there p h = absurd (cc)
All-take P (y ∷ ys) zero x there p h = (subst P (sym (some-injective _ _ there)) p, tt)
All-take P (y ∷ ys) (suc i) x there p h = (h.0, All-take P ys i x there p h.1)

-- The entries from `i` to `j` have been given back.
pub record GaveBack (chan i j : ℕ) (s s' : State) : Type 0 where
  pub same : requested chan s'.trace ≡ requested chan s.trace
  pub back :
      released chan s'.trace + uses chan (take i s.dev.channels)
      ≡ released chan s.trace + uses chan (take j s.dev.channels)

release_rounds-GaveBack :
    (chan n i : ℕ) (s : State)
    → i + n ≤ length s.dev.channels
    → (s' : State) × (release_rounds n i s ≡ ok tt s') × GaveBack chan i (i + n) s s'
unfolding release_rounds release_found
release_rounds-GaveBack chan zero i s h = (s, refl, record { same = refl; back = rw add-zero refl })
release_rounds-GaveBack chan (suc n) i s h =
    let (c, there) = get_elem?-lt s.dev.channels i (omega arith) in
    let s1 = log (Event.dma_release_channel c.chan) s in
    let (s', run, g) = release_rounds-GaveBack chan n (i + 1) s1 (omega arith) in
    let e : i + 1 ≡ suc i = omega arith in
    let e' : i + suc n ≡ i + 1 + n = omega arith in
    let given : released chan s'.trace + uses chan (take (suc i) s.dev.channels)
        ≡ here chan c.chan + released chan s.trace + uses chan (take (i + 1 + n) s.dev.channels) =
      rw (sym e) g.back in
    (
      s',
      rw there run,
      record {
        same = g.same;
        back = rw e' (omega (arith, given, uses-take chan s.dev.channels i c there));
      },
    )

abbrev Given : AxidmaChan → Type 0
Given c = c.chan ≢ 0

-- The first `i` of `n` channels have been given.
record Underway (chan : ℕ) (s0 : State) (n i : ℕ) (s : State) : Type 0 where
  pub whole : length s.dev.channels ≡ n
  pub given : All Given (take i s.dev.channels)
  pub asked : requested chan s.trace ≡ requested chan s0.trace + uses chan (take i s.dev.channels)
  pub kept : released chan s.trace ≡ released chan s0.trace

-- Whatever was given since has been given back.
abbrev pub Returned : ℕ → State → State → Type 0
Returned chan s0 s =
    requested chan s.trace + released chan s0.trace
    ≡ requested chan s0.trace + released chan s.trace

-- Every channel has been given, as often as the array has it, and none was given back.
pub record IsReserved (chan : ℕ) (s0 s : State) : Type 0 where
  pub given : All Given s.dev.channels
  pub asked : requested chan s.trace ≡ requested chan s0.trace + uses chan s.dev.channels
  pub kept : released chan s.trace ≡ released chan s0.trace

module _ (k : Kernel) (chan : ℕ) (real : chan ≢ 0) (s0 : State) (n : ℕ) where
  -- The state after a request of the channel at entry `i` was answered by `p`.
  abbrev answered : (i p : ℕ) → AxidmaChan → State → State
  answered i p c s = record s {
    trace = Event.dma_request_slave_channel c.name p ∷ s.trace;
    dev = record s.dev { channels = set s.dev.channels i (record c { chan = p }) };
  }

  answered-Underway :
      (i p : ℕ) (c : AxidmaChan) (s : State)
      → get_elem? s.dev.channels i ≡ some c
      → p ≢ 0
      → Underway chan s0 n i s
      → Underway chan s0 n (suc i) (answered i p c s)
  answered-Underway i p c s there got u =
      let c' : AxidmaChan = record c { chan = p } in
      let cs = set s.dev.channels i c' in
      let there' = get_elem?-set s.dev.channels i c' there in
      let same = take-set s.dev.channels i c' in
      record {
        whole = length-set s.dev.channels i c' ∙ u.whole;
        given = All-take Given cs i c' there' got (rw same u.given);
        asked = omega (arith, u.asked, uses-take chan cs i c' there', ap (uses chan) same);
        kept = u.kept;
      }

  refused-Returned :
      (i : ℕ) (c : AxidmaChan) (s : State)
      → get_elem? s.dev.channels i ≡ some c
      → i ≤ n
      → Underway chan s0 n i s
      → (s' : State) × (release_rounds i 0 (answered i 0 c s) ≡ ok tt s') × Returned chan s0 s'
  refused-Returned i c s there below u =
      let c' : AxidmaChan = record c { chan = 0 } in
      let s1 = answered i 0 c s in
      let e : length s1.dev.channels ≡ n = length-set s.dev.channels i c' ∙ u.whole in
      let (s', run, g) = release_rounds-GaveBack chan i 0 s1 (omega (arith, e)) in
      let other : here chan 0 ≡ 0 = rw (==_ne 0 chan (λ z. real (sym z))) in
      let start : 0 + i ≡ i = omega arith in
      let back : released chan s'.trace + 0
          ≡ released chan s.trace + uses chan (take i s1.dev.channels) =
        g.back ∙ ap (λ j. released chan s.trace + uses chan (take j s1.dev.channels)) start in
      (
        s',
        run,
        omega (
          arith,
          back,
          g.same,
          u.asked,
          u.kept,
          other,
          ap (uses chan) (take-set s.dev.channels i c'),
        ),
      )

  request_rounds-Attempt :
      (m i : ℕ) (s : State)
      → i + m ≡ n
      → Underway chan s0 n i s
      → Attempt (λ _. Underway chan s0 n n) (Returned chan s0) (request_rounds k m i s)
  unfolding request_rounds request_found dma_request_slave_channel write_chan store_chan
  request_rounds-Attempt zero i s e u =
      done (subst (λ j. Underway chan s0 n j s) (omega (arith, e)) u)
  request_rounds-Attempt (suc m) i s e u =
      let (c, there) = get_elem?-lt s.dev.channels i (omega (arith, u.whole)) in
      let p = k.dma_request_slave_channel s.trace c.name in
      let next : i + 1 ≡ suc i = omega arith in
      elim (Bool-cases (p == 0)) [
        | inl null ↦
            let none_given : p ≡ 0 = ground arith in
            let (s', run, returned) = refused-Returned i c s there (omega (arith, e)) u in
            rw (there, there, none_given, run) (failed returned)
        | inr got ↦
            rw (there, there, got, next)
              (request_rounds-Attempt m (suc i) (answered i p c s) (omega (arith, e))
                (answered-Underway i p c s there (λ z. ground arith) u))
      ]

-- The reservation of all channels has no fault, if the array has `num_chans` entries. Either every
-- channel of the array has been given; or the reservation fails, and any one channel has been given
-- back as often as it was given.
pub request_channels-Attempt :
    (k : Kernel) (chan : ℕ) (s : State)
    → chan ≢ 0
    → length s.dev.channels ≡ s.dev.num_chans
    → Attempt (λ _. IsReserved chan s) (Returned chan s) (axidma_request_channels k s)
unfolding axidma_request_channels
request_channels-Attempt k chan s real whole =
    let n = s.dev.num_chans in
    Ends.relax
      (request_rounds-Attempt k chan real s n n 0 s (omega arith)
        (record { whole = whole; given = tt; asked = omega arith; kept = refl }))
      λ _ s' u.
        let all = take-length s'.dev.channels n u.whole in
        record {
          given = subst (All Given) all u.given;
          asked = u.asked ∙ ap (λ cs. requested chan s.trace + uses chan cs) all;
          kept = u.kept;
        }
