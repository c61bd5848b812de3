-- ===== src/Kernel/Sequence.antt =====
-- kernel/time_kernel.py: the numbers of the stamps, and the timeline and the order read from them.
use stocky_cognitive_runtime.Prelude.{
  ℕ, zero, suc, ◌+◌, ◌-◌, ◌≡◌, refl, sym, ap, ◌∙◌, inl, inr, String, Bool, Option, none, some, List,
  [], ◌∷◌, ◌++◌, keep, drop, length, length-append, All, arith, ltb, str_eq, eq_refl, Bool-cases,
}
use stocky_cognitive_runtime.Kernel.{
  TimeStamp, TimeKernel, new_kernel, make_stamp, stamp, look_up, get_stamp, number, sequence_of,
  order, is_after, timeline_since, Tick, stamps, resets, tick, ticks,
}

-- The stamps after number `b`, numbered in turn.
abbrev pub IsNumbered : ℕ → List TimeStamp → Type 0
IsNumbered b [] = Unit
IsNumbered b (ts ∷ rest) = (ts.sequence_no ≡ b + 1) × IsNumbered (b + 1) rest

pub record IsTimed (k : TimeKernel) : Type 0 where
  pub counted : k.counter ≡ length k.timeline
  pub numbered : IsNumbered 0 k.timeline
  pub in_session : All (λ (e : String × TimeStamp). e.1.session_id ≡ k.session_id) k.event_map

IsNumbered-append :
    (b : ℕ) (xs : List TimeStamp) (x : TimeStamp)
    → IsNumbered b xs
    → x.sequence_no ≡ b + length xs + 1
    → IsNumbered b (xs ++ x ∷ [])
IsNumbered-append b [] x h e = (omega (arith, e), tt)
IsNumbered-append b (y ∷ xs) x h e = (h.0, IsNumbered-append (b + 1) xs x h.1 (omega (arith, e)))

tick-IsTimed : (k : TimeKernel) (t : Tick) → IsTimed k → IsTimed (tick k t)
unfolding tick stamp
tick-IsTimed k (stamps event_id parent now) h = record {
  counted =
      omega (arith, h.counted, length-append k.timeline (make_stamp k event_id parent now ∷ []));
  numbered =
      IsNumbered-append 0 k.timeline (make_stamp k event_id parent now) h.numbered
        (omega (arith, h.counted));
  in_session = (refl, h.in_session);
}
tick-IsTimed k resets h = record { counted = refl; numbered = tt; in_session = tt }

ticks-IsTimed : (k : TimeKernel) (ts : List Tick) → IsTimed k → IsTimed (ticks k ts)
unfolding ticks
ticks-IsTimed k [] h = h
ticks-IsTimed k (t ∷ ts) h = ticks-IsTimed (tick k t) ts (tick-IsTimed k t h)

new-IsTimed : (session_id : String) → IsTimed (new_kernel session_id)
new-IsTimed session_id = record { counted = refl; numbered = tt; in_session = tt }

drop_nil : (n : ℕ) → drop {A = TimeStamp} n [] ≡ []
drop_nil zero = refl
drop_nil (suc n) = refl

keep-drop :
    (since b : ℕ) (xs : List TimeStamp)
    → IsNumbered b xs
    → keep (λ ts. ltb since ts.sequence_no) xs ≡ drop (since - b) xs
keep-drop since b [] h = sym (drop_nil (since - b))
keep-drop since b (x ∷ xs) h =
    let ih = keep-drop since (b + 1) xs h.1 in
    elim (Bool-cases (ltb since x.sequence_no)) [
      | inl e ↦ rw e (
          ap (λ r. x ∷ r) (ih ∙ ap (λ n. drop n xs) {y = 0} (ground (arith, h.0)))
          ∙ ap (λ n. drop n (x ∷ xs)) {x = 0} (ground (arith, h.0)))
      | inr e ↦
          rw e (ih ∙ ap (λ n. drop n (x ∷ xs)) {x = suc (since - (b + 1))} (ground (arith, h.0)))
    ]

-- After any stamps and resets of a new kernel, the timeline since a number is the timeline without
-- that many of its first stamps.
pub timeline_since-drop :
    (session_id : String) (ts : List Tick) (since : ℕ)
    → let k = ticks (new_kernel session_id) ts in timeline_since k since ≡ drop since k.timeline
timeline_since-drop session_id ts since =
    let k = ticks (new_kernel session_id) ts in
    keep-drop since 0 k.timeline (ticks-IsTimed _ ts (new-IsTimed session_id)).numbered
    ∙ ap (λ n. drop n k.timeline) {y = since} (omega arith)

abbrev pub compare_numbers : Option ℕ → Option ℕ → Option Bool
compare_numbers none b = none
compare_numbers (some a) none = none
compare_numbers (some a) (some b) = some (ltb b a)

abbrev InSession : String → Option TimeStamp → Type 0
InSession s none = Unit
InSession s (some ts) = ts.session_id ≡ s

look_up-InSession :
    (s id : String) (entries : List (String × TimeStamp))
    → All (λ (e : String × TimeStamp). e.1.session_id ≡ s) entries
    → InSession s (look_up id entries)
unfolding look_up
look_up-InSession s id [] h = tt
look_up-InSession s id ((i, ts) ∷ rest) h = elim (Bool-cases (str_eq i id)) [
  | inl e ↦ rw e h.0
  | inr e ↦ rw e (look_up-InSession s id rest h.1)
]

order_numbers :
    (s : String) (a b : Option TimeStamp)
    → InSession s a
    → InSession s b
    → order a b ≡ compare_numbers (number a) (number b)
order_numbers s none b ha hb = refl
order_numbers s (some a) none ha hb = refl
order_numbers s (some a) (some b) ha hb = rw (ha, hb, eq_refl s) refl

-- After any stamps and resets of a new kernel, one event is after another exactly by their sequence
-- numbers, and the answer is none if one of the two has no stamp.
is_after-sequence_of :
    (session_id : String) (ts : List Tick) (a b : String)
    → let k = ticks (new_kernel session_id) ts in
      is_after k a b ≡ compare_numbers (sequence_of k a) (sequence_of k b)
is_after-sequence_of session_id ts a b =
    let k = ticks (new_kernel session_id) ts in
    let h = (ticks-IsTimed _ ts (new-IsTimed session_id)).in_session in
    order_numbers k.session_id (get_stamp k a) (get_stamp k b)
      (look_up-InSession k.session_id a k.event_map h)
      (look_up-InSession k.session_id b k.event_map h)
