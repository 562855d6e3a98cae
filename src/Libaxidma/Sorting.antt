-- ===== src/Libaxidma/Sorting.antt =====
-- `categorize_channels` against a plain description: the ids of each kind, in the driver's order.
use axidma_driver.Common.{
  ℕ, zero, suc, ◌+◌, ◌≤◌, ◌<◌, ◌≡◌, ◌∙◌, refl, sym, ap, subst, true, inl, inr, some, List, [], ◌∷◌,
  ◌++◌, map, append-nil, if◌then◌else◌, arith, length, get_elem?, set, take, All, length-append,
  length-set, take-suc, take-suc-set, get_elem?-lt, lt→ltb, Bool-cases,
}
use axidma_driver.DeviceTree.Unique.{All-get}
use axidma_driver.Types.{AxidmaChan}
use axidma_driver.DeviceTree.{Kind, dma_tx, dma_rx, vdma_tx, vdma_rx}
use axidma_driver.DeviceTree.Counters.{is_kind}
use axidma_driver.Libaxidma.Process.{Process, Array, AxidmaDev, ok, same, set_array}
use axidma_driver.Libaxidma.Channels.{
  kind_of, channel_of, append_id, store_channel, place_kind, place_found, place_channels,
}

-- The ids of the channels of a kind.
abbrev pub ids : Kind → List AxidmaChan → List ℕ
ids kind [] = []
ids kind (c ∷ cs) = if is_kind kind c then c.channel_id ∷ ids kind cs else ids kind cs

ids-snoc :
    (kind : Kind) (cs : List AxidmaChan) (c : AxidmaChan)
    → ids kind (cs ++ (c ∷ [])) ≡ ids kind cs ++ (if is_kind kind c then c.channel_id ∷ [] else [])
ids-snoc kind [] c = refl
ids-snoc kind (x ∷ xs) c = elim (Bool-cases (is_kind kind x)) [
  | inl y ↦ rw y (ap (◌∷◌ x.channel_id) (ids-snoc kind xs c))
  | inr n ↦ rw n (ids-snoc kind xs c)
]

same_refl : (k : Kind) → same k k ≡ true
same_refl dma_tx = refl
same_refl dma_rx = refl
same_refl vdma_tx = refl
same_refl vdma_rx = refl

pub same_eq : (k k' : Kind) → same k k' ≡ true → k ≡ k'
same_eq k k' h = ground arith

is_kind-same :
    (k k' : Kind) (c : AxidmaChan) → kind_of c.dir c.type ≡ some k → is_kind k' c ≡ same k k'
is_kind-same k k' c h = ground arith

length-ids-take :
    (kind : Kind) (cs : List AxidmaChan) (i : ℕ)
    → length (ids kind (take i cs)) ≤ length (ids kind cs)
length-ids-take kind cs zero = omega arith
length-ids-take kind [] (suc i) = omega arith
length-ids-take kind (c ∷ cs) (suc i) = elim (Bool-cases (is_kind kind c)) [
  | inl y ↦ rw y (omega (arith, length-ids-take kind cs i))
  | inr n ↦ rw n (length-ids-take kind cs i)
]

-- Every channel has one of the four kinds.
abbrev pub HasKind : AxidmaChan → Type 0
HasKind c = (kind : Kind) × (kind_of c.dir c.type ≡ some kind)

-- The array has the ids, and has kept its memory.
pub record Stores (xs : List ℕ) (a0 a : Array) : Type 0 where
  pub len : a.len ≡ length xs
  pub stored : take a.len a.cells ≡ xs
  pub room : length a.cells ≡ length a0.cells
  pub ptr : a.ptr ≡ a0.ptr

-- The first `i` channels have been placed.
pub record Placed (channels : List AxidmaChan) (i : ℕ) (d0 d : AxidmaDev) : Type 0 where
  pub arrays : (kind : Kind) → Stores (ids kind (take i channels)) (d0.arrays kind) (d.arrays kind)
  pub mirrored : take i d.channels ≡ map channel_of (take i channels)
  pub whole : length d.channels ≡ length d0.channels
  pub fd : d.fd ≡ d0.fd
  pub initialized : d.initialized ≡ d0.initialized
  pub channels_ptr : d.channels_ptr ≡ d0.channels_ptr
  pub num_channels : d.num_channels ≡ d0.num_channels

append-Stores :
    (a0 a : Array) (xs : List ℕ) (id : ℕ)
    → Stores xs a0 a
    → a.len < length a.cells
    → Stores (xs ++ (id ∷ [])) a0 (record a { len = a.len + 1; cells = set a.cells a.len id })
append-Stores a0 a xs id h room =
    let next : a.len + 1 ≡ suc a.len = omega arith in
    record {
      len = omega (arith, h.len, length-append xs (id ∷ []));
      stored = rw next (take-suc-set a.cells a.len id room ∙ ap (λ ys. ys ++ (id ∷ [])) h.stored);
      room = length-set a.cells a.len id ∙ h.room;
      ptr = h.ptr;
    }

map-snoc :
    (cs : List AxidmaChan) (c : AxidmaChan)
    → map channel_of (cs ++ (c ∷ [])) ≡ map channel_of cs ++ (channel_of c ∷ [])
map-snoc [] c = refl
map-snoc (x ∷ xs) c = ap (◌∷◌ (channel_of x)) (map-snoc xs c)

module _ (channels : List AxidmaChan) (d0 : AxidmaDev) where
  -- The state after channel `c`, of kind `k`, has been placed at entry `i`.
  abbrev placed : Kind → (i : ℕ) → AxidmaChan → Process → Process
  placed k i c p =
      let a = p.dev.arrays k in
      record p {
        dev =
            record (set_array k
              (record a { len = a.len + 1; cells = set a.cells a.len c.channel_id }) p.dev) {
                channels = set p.dev.channels i (channel_of c);
              };
      }

  -- The ids of a kind, with one more channel.
  ids-take-suc :
      (k kind : Kind) (i : ℕ) (c : AxidmaChan)
      → get_elem? channels i ≡ some c
      → kind_of c.dir c.type ≡ some k
      → ids kind (take (suc i) channels)
        ≡ ids kind (take i channels) ++ (if same k kind then c.channel_id ∷ [] else [])
  ids-take-suc k kind i c there known =
      ap (ids kind) (take-suc channels i there)
      ∙ ids-snoc kind (take i channels) c
      ∙ ap (λ b. ids kind (take i channels) ++ (if b then c.channel_id ∷ [] else []))
          (is_kind-same k kind c known)

  placed-Stores :
      (k kind : Kind) (i : ℕ) (c : AxidmaChan) (p : Process)
      → get_elem? channels i ≡ some c
      → kind_of c.dir c.type ≡ some k
      → (p.dev.arrays k).len < length (p.dev.arrays k).cells
      → Placed channels i d0 p.dev
      → Stores
          (ids kind (take (suc i) channels))
          (d0.arrays kind)
          ((placed k i c p).dev.arrays kind)
  placed-Stores k kind i c p there known room h =
      rw (ids-take-suc k kind i c there known) (elim (Bool-cases (same k kind)) [
        | inl y ↦ rw y (
            subst
              (λ kind'.
                Stores (ids kind' (take i channels) ++ (c.channel_id ∷ [])) (d0.arrays kind')
                  (record (p.dev.arrays k) {
                    len = (p.dev.arrays k).len + 1;
                    cells = set (p.dev.arrays k).cells (p.dev.arrays k).len c.channel_id;
                  }))
              (same_eq k kind y)
              (append-Stores (d0.arrays k) (p.dev.arrays k) _ c.channel_id (h.arrays k) room))
        | inr n ↦ rw (n, append-nil) (h.arrays kind)
      ])

  place_found-Placed :
      (k : Kind) (i : ℕ) (c : AxidmaChan) (p : Process)
      → get_elem? channels i ≡ some c
      → kind_of c.dir c.type ≡ some k
      → length (ids k channels) ≤ length (d0.arrays k).cells
      → i < length d0.channels
      → Placed channels i d0 p.dev
      → (place_found i (some c) p ≡ ok tt (placed k i c p))
        × Placed channels (suc i) d0 (placed k i c p).dev
  unfolding place_found place_kind append_id store_channel
  place_found-Placed k i c p there known room inside h =
      let a = p.dev.arrays k in
      let more : length (ids k (take (suc i) channels)) ≡ length (ids k (take i channels)) + 1 =
        ap length (ids-take-suc k k i c there known)
        ∙ rw (same_refl k) (length-append (ids k (take i channels)) (c.channel_id ∷ [])) in
      let fits : a.len < length a.cells =
        omega
          (arith, more, (h.arrays k).len, (h.arrays k).room, length-ids-take k channels (suc i)) in
      let there' : i < length p.dev.channels = omega (arith, h.whole) in
      (
        rw (known, lt→ltb a.len (length a.cells) fits, lt→ltb i (length p.dev.channels) there'),
        record {
          arrays = λ kind. placed-Stores k kind i c p there known fits h;
          mirrored =
              take-suc-set p.dev.channels i (channel_of c) there'
              ∙ ap (λ xs. xs ++ (channel_of c ∷ [])) h.mirrored
              ∙ sym
                  (ap (map channel_of) (take-suc channels i there) ∙ map-snoc (take i channels) c);
          whole = length-set p.dev.channels i (channel_of c) ∙ h.whole;
          fd = h.fd;
          initialized = h.initialized;
          channels_ptr = h.channels_ptr;
          num_channels = h.num_channels;
        },
      )

  pub place_channels-Placed :
      (n i : ℕ) (p : Process)
      → i + n ≡ length channels
      → length channels ≡ length d0.channels
      → All HasKind channels
      → ((kind : Kind) → length (ids kind channels) ≤ length (d0.arrays kind).cells)
      → Placed channels i d0 p.dev
      → (d : AxidmaDev) × (place_channels n i channels p ≡ ok tt (record p { dev = d }))
        × Placed channels (length channels) d0 d
  unfolding place_channels
  place_channels-Placed zero i p e whole kinds room h =
      (p.dev, refl, subst (λ j. Placed channels j d0 p.dev) (omega (arith, e)) h)
  place_channels-Placed (suc n) i p e whole kinds room h =
      let (c, there) = get_elem?-lt channels i (omega (arith, e)) in
      let (k, known) = All-get HasKind channels i kinds there in
      let (run, h') = place_found-Placed k i c p there known (room k) (omega (arith, e, whole)) h in
      let next : i + 1 ≡ suc i = omega arith in
      let (d, rest, done) =
        place_channels-Placed n (suc i) (placed k i c p) (omega (arith, e)) whole kinds room h' in
      (d, rw (there, run, next) rest, done)

-- The channels have been sorted: each array has the ids of its kind in the driver's order, and the
-- library has a structure for each channel, with no callback.
pub record IsSorted (channels : List AxidmaChan) (d : AxidmaDev) : Type 0 where
  pub lens : (kind : Kind) → (d.arrays kind).len ≡ length (ids kind channels)
  pub stored : (kind : Kind) → take (d.arrays kind).len (d.arrays kind).cells ≡ ids kind channels
  pub mirrored : d.channels ≡ map channel_of channels
