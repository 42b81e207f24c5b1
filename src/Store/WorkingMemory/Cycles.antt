-- ===== src/Store/WorkingMemory/Cycles.antt =====
-- `WorkingMemoryBuffer` of internal/store/working_memory.go against the history of its calls.
use vatbrain.Prelude.{
  ℕ, ◌-◌, drop, ◌<◌, ◌≡◌, refl, ap, sym, ◌∙◌, inl, inr, String, Option, none, some, List, [], ◌∷◌,
  ◌++◌, Bool-cases, eq_iff, string_eq, ◌==◌, arith, if◌then◌else◌,
}
use vatbrain.Prelude.Dict.{
  dict_laws, lookup, lookup-insert, lookup-empty, lookup-insert_inv, lookup-delete_inv,
}
use mathlib.Core.Path.{subst}
use text.Mathlib.TextPositions.{eq_refl}
use vatbrain.Prelude.Int.{ℤ}
use vatbrain.Prelude.Text.{Text}
use vatbrain.Store.WorkingMemory.{
  RingBuffer, get_all, WorkingMemoryBuffer, new_working_memory_buffer, buffer_or_new, push_cycle,
  contents_of, get_cycles, clear_cycles,
}
use vatbrain.Store.WorkingMemory.Window.{
  IsValid, last_of, last_of-append, new_ring_buffer-IsValid, push-IsValid, get_all-push,
  get_all-new_ring_buffer,
}

pub record IsValidBuffer (w : WorkingMemoryBuffer) : Type 0 where
  pub positive : 0 < w.max_size
  pub buffers : (p : String) (rb : RingBuffer) → lookup p w.cycles ≡ some rb → IsValid w.max_size rb

-- A call on the buffer.
pub data Call : Type 0 where
  pushed : String → Text → Call
  cleared : String → Call

pub apply : Call → WorkingMemoryBuffer → WorkingMemoryBuffer
apply (pushed p s) w = push_cycle p s w
apply (cleared p) w = clear_cycles p w

pub apply_all : List Call → WorkingMemoryBuffer → WorkingMemoryBuffer
apply_all [] w = w
apply_all (c ∷ cs) w = apply_all cs (apply c w)

history_step : String → List Text → Call → List Text
history_step q acc (pushed p s) = if p == q then acc ++ s ∷ [] else acc
history_step q acc (cleared p) = if p == q then [] else acc

-- What was pushed for a project since it was last cleared, oldest first, after `acc`.
pub history : String → List Text → List Call → List Text
unfolding history_step
history q acc [] = acc
history q acc (c ∷ cs) = history q (history_step q acc c) cs

last_of-nil : (n : ℕ) → last_of n [] ≡ []
last_of-nil n = let e : 0 - n ≡ 0 = omega arith in ap (λ k. drop k []) e

buffer_or_new-IsValid :
    {cap : ℕ} (o : Option RingBuffer)
    → 0 < cap
    → ((rb : RingBuffer) → o ≡ some rb → IsValid cap rb)
    → IsValid cap (buffer_or_new cap o)
unfolding buffer_or_new
buffer_or_new-IsValid {cap} none h v = new_ring_buffer-IsValid cap h
buffer_or_new-IsValid (some rb) h v = v rb refl

contents-buffer_or_new :
    (n : ℕ) (o : Option RingBuffer) → 0 < n → get_all (buffer_or_new n o) ≡ contents_of o
unfolding buffer_or_new contents_of
contents-buffer_or_new n none h = get_all-new_ring_buffer n
contents-buffer_or_new n (some rb) h = refl

pub get_cycles-clear_cycles :
    (w : WorkingMemoryBuffer) (p q : String)
    → get_cycles q (clear_cycles p w) ≡ (if p == q then [] else get_cycles q w)
unfolding get_cycles clear_cycles contents_of
get_cycles-clear_cycles w p q = simp dict_laws (ground arith)

module _ (w : WorkingMemoryBuffer) (v : IsValidBuffer w) (p : String) where
  push_cycle-IsValid : (s : Text) → IsValidBuffer (push_cycle p s w)
  unfolding push_cycle
  push_cycle-IsValid s = record {
    positive = v.positive;
    buffers = λ j rb h. elim (lookup-insert_inv p j _ w.cycles h) [
      | inl (_, e) ↦
          subst (IsValid w.max_size) e
            (push-IsValid s _ (buffer_or_new-IsValid (lookup p w.cycles) v.positive (v.buffers p)))
      | inr e ↦ v.buffers j rb e
    ];
  }

  clear_cycles-IsValid : IsValidBuffer (clear_cycles p w)
  unfolding clear_cycles
  clear_cycles-IsValid = record {
    positive = v.positive;
    buffers = λ j rb h. v.buffers j rb (lookup-delete_inv p j w.cycles h);
  }

  get_cycles-push_cycle_self :
      (s : Text) → get_cycles p (push_cycle p s w) ≡ last_of w.max_size (get_cycles p w ++ s ∷ [])
  unfolding get_cycles push_cycle
  get_cycles-push_cycle_self s =
      let old = lookup p w.cycles in
      rw (lookup-insert, eq_refl)
        (unfold contents_of in
          get_all-push s (buffer_or_new w.max_size old)
            (buffer_or_new-IsValid old v.positive (v.buffers p)))
      ∙ ap (λ t. last_of w.max_size (t ++ s ∷ []))
          (contents-buffer_or_new w.max_size old v.positive)

  get_cycles-push_cycle :
      (q : String) (s : Text)
      → get_cycles q (push_cycle p s w)
        ≡ (if p == q then last_of w.max_size (get_cycles q w ++ s ∷ []) else get_cycles q w)
  get_cycles-push_cycle q s = elim (Bool-cases (p == q)) [
    | inl e ↦
        subst
          (λ r.
            get_cycles r (push_cycle p s w)
            ≡ (if p == r then last_of w.max_size (get_cycles r w ++ s ∷ []) else get_cycles r w))
          ((eq_iff p q).0 e) (rw eq_refl (get_cycles-push_cycle_self s))
    | inr e ↦ unfold get_cycles push_cycle in rw (lookup-insert, e)
  ]

apply-IsValid : (c : Call) (w : WorkingMemoryBuffer) → IsValidBuffer w → IsValidBuffer (apply c w)
unfolding apply
apply-IsValid (pushed p s) w v = push_cycle-IsValid w v p s
apply-IsValid (cleared p) w v = clear_cycles-IsValid w v p

max_size-apply : (c : Call) (w : WorkingMemoryBuffer) → (apply c w).max_size ≡ w.max_size
unfolding apply push_cycle clear_cycles
max_size-apply (pushed p s) w = refl
max_size-apply (cleared p) w = refl

last_of-history_step :
    (q : String) (acc : List Text) (c : Call) (w : WorkingMemoryBuffer)
    → IsValidBuffer w
    → get_cycles q w ≡ last_of w.max_size acc
    → get_cycles q (apply c w) ≡ last_of w.max_size (history_step q acc c)
unfolding apply history_step
last_of-history_step q acc (pushed p s) w v h = elim (Bool-cases (p == q)) [
  | inl e ↦ rw e (
      get_cycles-push_cycle w v p q s
      ∙ rw e
          (ap (λ t. last_of w.max_size (t ++ s ∷ [])) h ∙ last_of-append w.max_size acc (s ∷ [])))
  | inr e ↦ rw e (get_cycles-push_cycle w v p q s ∙ rw e h)
]
last_of-history_step q acc (cleared p) w v h = elim (Bool-cases (p == q)) [
  | inl e ↦ rw e (get_cycles-clear_cycles w p q ∙ rw e (sym (last_of-nil w.max_size)))
  | inr e ↦ rw e (get_cycles-clear_cycles w p q ∙ rw e h)
]

get_cycles-apply_all :
    (q : String) (acc : List Text) (cs : List Call) (w : WorkingMemoryBuffer)
    → IsValidBuffer w
    → get_cycles q w ≡ last_of w.max_size acc
    → get_cycles q (apply_all cs w) ≡ last_of w.max_size (history q acc cs)
unfolding apply_all history history_step
get_cycles-apply_all q acc [] w v h = h
get_cycles-apply_all q acc (c ∷ cs) w v h =
    get_cycles-apply_all q (history_step q acc c) cs (apply c w) (apply-IsValid c w v) (
      last_of-history_step q acc c w v h
      ∙ ap (λ n. last_of n (history_step q acc c)) (sym (max_size-apply c w)))
    ∙ ap (λ n. last_of n (history q (history_step q acc c) cs)) (max_size-apply c w)

new-IsValid : (n : ℤ) → IsValidBuffer (new_working_memory_buffer n)
unfolding new_working_memory_buffer
new-IsValid n = record {
  positive = ground arith;
  buffers = λ p rb h. cc (lookup-empty {V = RingBuffer} p);
}

get_cycles-new : (n : ℤ) (q : String) → get_cycles q (new_working_memory_buffer n) ≡ []
unfolding get_cycles new_working_memory_buffer contents_of
get_cycles-new n q = rw lookup-empty

-- After any calls on a new buffer, `GetAll` of a project returns its newest summaries since it was
-- last cleared, oldest first, as many as the configured size allows (20 if that is not positive),
-- whatever the other projects did.
pub cycles_history :
    (n : ℤ) (cs : List Call) (q : String)
    → let w = new_working_memory_buffer n in
      get_cycles q (apply_all cs w) ≡ last_of w.max_size (history q [] cs)
cycles_history n cs q =
    get_cycles-apply_all q [] cs (new_working_memory_buffer n) (new-IsValid n)
      (get_cycles-new n q ∙ sym (last_of-nil _))
