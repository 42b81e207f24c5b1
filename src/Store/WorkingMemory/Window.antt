-- ===== src/Store/WorkingMemory/Window.antt =====
-- The ring buffer of internal/store/working_memory.go is a window over what was pushed.
use mathlib.Core.List.{append-nil, append_assoc}
use vatbrain.Prelude.{
  ℕ, zero, suc, ◌+◌, ◌-◌, ◌%◌, ◌≤◌, ◌<◌, ◌≡◌, refl, ap, ap₂, ◌∙◌, sym, ◌≢◌, ◌⊎◌, inl, inr, false,
  List, [], ◌∷◌, ◌++◌, length, get_or, set, drop, ltb, Bool-cases, length-set, length-append,
  length-replicate, get_or-set_self, get_or-set_ne, arith,
}
use vatbrain.Prelude.Text.{Text}
use vatbrain.Store.WorkingMemory.{RingBuffer, new_ring_buffer, push, get_from, get_all}

pub record IsValid (cap : ℕ) (rb : RingBuffer) : Type 0 where
  pub capacity : length rb.items ≡ cap
  pub nonempty : 0 < cap
  pub head_lt : rb.head < cap
  pub size_le : rb.size ≤ cap

-- The newest `cap` of the summaries, oldest first.
abbrev pub last_of : ℕ → List Text → List Text
last_of cap xs = drop (length xs - cap) xs

abbrev cell : RingBuffer → ℕ → Text
cell rb i = get_or rb.items ((rb.head + i + length rb.items - rb.size) % length rb.items) []

mod_less : (a m : ℕ) → a < m → a % m ≡ a
mod_less a m h = grind arith

mod_once : (a m : ℕ) → m ≤ a → a < m + m → a % m ≡ a - m
mod_once a m h k = grind arith

mod_in_range : (a m : ℕ) → 0 < m → a % m < m
mod_in_range a m h = omega arith

-- The place of an element, from the head that was before the push and from the one after it.
next_head :
    (h n : ℕ) → h < n → (((h + 1) % n ≡ h + 1) × (h + 1 < n)) ⊎ (((h + 1) % n ≡ 0) × (h + 1 ≡ n))
next_head h n k = elim (Bool-cases (ltb (h + 1) n)) [
  | inl e ↦ inl (mod_less (h + 1) n (ground arith), ground arith)
  | inr e ↦ inr (omega (arith, mod_once (h + 1) n (ground arith) (omega arith)), ground arith)
]

place_moved :
    (h n z z' δ i : ℕ)
    → h < n
    → z ≤ n
    → z' ≤ n
    → z' + δ ≡ z + 1
    → i < z'
    → ((h + 1) % n + i + n - z') % n ≡ (h + (i + δ) + n - z) % n
place_moved h n z z' δ i hn zn zn' e iz = elim (next_head h n hn) [
  | inl (p, q) ↦ rw p (ap (λ k. k % n) (omega arith))
  | inr (p, q) ↦ rw p (
      mod_less (0 + i + n - z') n (omega arith)
      ∙ omega (arith, mod_once (h + (i + δ) + n - z) n (omega arith) (omega arith)))
]

place_ne_head : (h n z i : ℕ) → h < n → z ≤ n → i < z → z < n + i → (h + i + n - z) % n ≢ h
place_ne_head h n z i hn zn iz old e =
    grind (arith, mod_less (h + i + n - z) n, mod_once (h + i + n - z) n)

place_head : (h n z : ℕ) → h < n → z ≤ n → (h + z + n - z) % n ≡ h
place_head h n z hn zn = omega (arith, mod_once (h + z + n - z) n (omega arith) (omega arith))

pub new_ring_buffer-IsValid : (cap : ℕ) → 0 < cap → IsValid cap (new_ring_buffer cap)
unfolding new_ring_buffer
new_ring_buffer-IsValid cap h = record {
  capacity = length-replicate cap [];
  nonempty = h;
  head_lt = h;
  size_le = omega arith;
}

pub push-IsValid : {cap : ℕ} (s : Text) (rb : RingBuffer) → IsValid cap rb → IsValid cap (push s rb)
unfolding push
push-IsValid s rb v = record {
  capacity = length-set rb.items rb.head s ∙ v.capacity;
  nonempty = v.nonempty;
  head_lt = rw v.capacity (mod_in_range (rb.head + 1) _ v.nonempty);
  size_le = ground (arith, v.capacity, v.size_le);
}

module _ (s : Text) (rb : RingBuffer) {cap : ℕ} (v : IsValid cap rb) where
  cell-push :
      (δ i : ℕ)
      → (push s rb).size + δ ≡ rb.size + 1
      → rb.size < cap + δ
      → i + δ < rb.size
      → cell (push s rb) i ≡ cell rb (i + δ)
  unfolding push
  cell-push δ i e old k =
      let n = length rb.items in
      let hn : rb.head < n = omega (arith, v.capacity, v.head_lt) in
      let zn : rb.size ≤ n = omega (arith, v.capacity, v.size_le) in
      let zn' : (push s rb).size ≤ n = ground (arith, zn) in
      let place = (rb.head + (i + δ) + n - rb.size) % n in
      ap
        (λ m.
          get_or (set rb.items rb.head s) (((rb.head + 1) % n + i + m - (push s rb).size) % m) [])
        (length-set rb.items rb.head s)
      ∙ ap (λ j. get_or (set rb.items rb.head s) j [])
          (place_moved rb.head n rb.size (push s rb).size δ i hn zn zn' e (omega arith))
      ∙ get_or-set_ne rb.items rb.head place s []
          (λ q. place_ne_head rb.head n rb.size (i + δ) hn zn k (omega (arith, v.capacity)) (sym q))

  cell-push_last :
      (δ i : ℕ) → (push s rb).size + δ ≡ rb.size + 1 → i + δ ≡ rb.size → cell (push s rb) i ≡ s
  unfolding push
  cell-push_last δ i e k =
      let n = length rb.items in
      let hn : rb.head < n = omega (arith, v.capacity, v.head_lt) in
      let zn : rb.size ≤ n = omega (arith, v.capacity, v.size_le) in
      let zn' : (push s rb).size ≤ n = ground (arith, zn) in
      ap
        (λ m.
          get_or (set rb.items rb.head s) (((rb.head + 1) % n + i + m - (push s rb).size) % m) [])
        (length-set rb.items rb.head s)
      ∙ ap (λ j. get_or (set rb.items rb.head s) j [])
          (place_moved rb.head n rb.size (push s rb).size δ i hn zn zn' e (omega arith)
            ∙ ap (λ j. (rb.head + j + n - rb.size) % n) k
            ∙ place_head rb.head n rb.size hn zn)
      ∙ get_or-set_self rb.items rb.head s [] hn

  get_from-push :
      (δ i left : ℕ)
      → (push s rb).size + δ ≡ rb.size + 1
      → rb.size < cap + δ
      → i + left + δ ≡ rb.size
      → get_from (push s rb) i (suc left) ≡ get_from rb (i + δ) left ++ s ∷ []
  unfolding get_from
  get_from-push δ i zero e old k = ap (λ c. c ∷ []) (cell-push_last δ i e (omega arith))
  get_from-push δ i (suc left) e old k = ap₂ ◌∷◌ (cell-push δ i e old (omega arith)) (
      get_from-push δ (i + 1) left e old (omega arith)
      ∙ ap (λ j. get_from rb j left ++ s ∷ []) (omega arith))

  length-get_from : (i left : ℕ) → length (get_from rb i left) ≡ left
  unfolding get_from
  length-get_from i zero = refl
  length-get_from i (suc left) = ap suc (length-get_from (i + 1) left)

  length-get_all_snoc : length (get_all rb ++ s ∷ []) ≡ rb.size + 1
  unfolding get_all
  length-get_all_snoc =
      omega (arith, length-append (get_all rb) (s ∷ []), length-get_from 0 rb.size)

  get_all-push_free : rb.size < cap → get_all (push s rb) ≡ last_of cap (get_all rb ++ s ∷ [])
  unfolding get_all
  get_all-push_free h =
      let grown : (push s rb).size ≡ suc rb.size = unfold push in ground (arith, v.capacity) in
      let whole : length (get_all rb ++ s ∷ []) - cap ≡ 0 = omega (arith, length-get_all_snoc) in
      ap (get_from (push s rb) 0) grown
      ∙ get_from-push 0 0 rb.size (omega arith) (omega arith) (omega arith)
      ∙ ap (λ n. drop n (get_all rb ++ s ∷ [])) (sym whole)

  get_all-push_full :
      (k : ℕ)
      → rb.size ≡ suc k
      → rb.size ≡ cap
      → get_all (push s rb) ≡ last_of cap (get_all rb ++ s ∷ [])
  unfolding get_all
  get_all-push_full k e full =
      let same : (push s rb).size ≡ suc k = unfold push in ground (arith, v.capacity) in
      let one : length (get_all rb ++ s ∷ []) - cap ≡ 1 = omega (arith, length-get_all_snoc) in
      ap (get_from (push s rb) 0) same
      ∙ get_from-push 1 0 k (omega arith) (omega arith) (omega arith)
      ∙ unfold get_from in
        ap (λ n. drop 1 (get_from rb 0 n ++ s ∷ [])) (sym e)
        ∙ ap (λ n. drop n (get_all rb ++ s ∷ [])) (sym one)

  -- A push appends to the contents and drops what no longer fits.
  pub get_all-push : get_all (push s rb) ≡ last_of cap (get_all rb ++ s ∷ [])
  get_all-push = elim (Bool-cases (ltb rb.size cap)) [
    | inl e ↦ get_all-push_free (ground arith)
    | inr e ↦
        get_all-push_full (rb.size - 1) (omega (arith, full e, v.nonempty)) (omega (arith, full e))
  ]
    where
      full : ltb rb.size cap ≡ false → cap ≤ rb.size
      full e = ground arith

pub get_all-new_ring_buffer : (n : ℕ) → get_all (new_ring_buffer n) ≡ []
unfolding new_ring_buffer get_all get_from
get_all-new_ring_buffer n = refl

-- The state after a sequence of pushes.
pub push_all : RingBuffer → List Text → RingBuffer
push_all rb [] = rb
push_all rb (s ∷ xs) = push_all (push s rb) xs

drop-append_drop :
    {A : Type 0} (n m : ℕ) (xs ys : List A)
    → n ≤ length xs
    → drop m (drop n xs ++ ys) ≡ drop (n + m) (xs ++ ys)
drop-append_drop zero m xs ys h = let e : m ≡ 0 + m = omega arith in ap (λ k. drop k (xs ++ ys)) e
drop-append_drop (suc n) m [] ys h = elim h [ ]
drop-append_drop (suc n) m (x ∷ xs) ys h =
    drop-append_drop n m xs ys (omega arith)
    ∙ (let e : suc (n + m) ≡ suc n + m = omega arith in ap (λ k. drop k (x ∷ (xs ++ ys))) e)

length-drop : {A : Type 0} (n : ℕ) (xs : List A) → length (drop n xs) ≡ length xs - n
length-drop zero xs = omega arith
length-drop (suc n) [] = omega arith
length-drop (suc n) (x ∷ xs) = omega (arith, length-drop n xs)

pub last_of-append :
    (cap : ℕ) (xs ys : List Text) → last_of cap (last_of cap xs ++ ys) ≡ last_of cap (xs ++ ys)
last_of-append cap xs ys =
    let n = length xs - cap in
    drop-append_drop n (length (drop n xs ++ ys) - cap) xs ys (omega arith)
    ∙ ap (λ k. drop k (xs ++ ys))
        (omega (arith, length-append (drop n xs) ys, length-append xs ys, length-drop n xs))

get_all-push_all :
    {cap : ℕ} (rb : RingBuffer) (ys xs : List Text)
    → IsValid cap rb
    → get_all rb ≡ last_of cap ys
    → get_all (push_all rb xs) ≡ last_of cap (ys ++ xs)
unfolding push_all
get_all-push_all rb ys [] v h = h ∙ ap (last_of _) (sym (append-nil ys))
get_all-push_all {cap} rb ys (s ∷ xs) v h =
    get_all-push_all (push s rb) (ys ++ s ∷ []) xs (push-IsValid s rb v)
      (get_all-push s rb v ∙ ap (λ t. last_of cap (t ++ s ∷ [])) h ∙ last_of-append cap ys (s ∷ []))
    ∙ ap (last_of cap) (append_assoc ys (s ∷ []) xs)

-- Whatever is pushed into a new ring buffer of a positive capacity, `get_all` returns the newest
-- pushes that fit the capacity, oldest first.
pub window :
    (cap : ℕ) (xs : List Text)
    → 0 < cap
    → get_all (push_all (new_ring_buffer cap) xs) ≡ last_of cap xs
unfolding new_ring_buffer get_all get_from
window cap xs h =
    get_all-push_all (new_ring_buffer cap) [] xs (new_ring_buffer-IsValid cap h) (ground arith)
