-- ===== src/Roll/Counts.antt =====
-- master/internal/server/client_roll.go: counting what is sent, and the dice that are hidden.
use layforge.Prelude.{
  ℕ, suc, ◌+◌, ◌≡◌, refl, sym, subst, ◌∙◌, inl, inr, String, str_eq, str_eq_iff, Bool, true, false,
  Bool-cases, arith, some, List, [], ◌∷◌, ◌++◌, if◌then◌else◌, ℤ,
}
use layforge.Roll.{
  Die, Message, owner_roll, others_spectate, others_reveal, all_complete, asker_error, has,
  result_of, remaining, self_reveal,
}

-- How often spectators are told of a die, and everybody of the end.
unfoldable pub reveals_of : String → List Message → ℕ
reveals_of id [] = 0
reveals_of id (others_reveal x n ∷ ms) =
    if str_eq x id then suc (reveals_of id ms) else reveals_of id ms
reveals_of id (owner_roll ds ∷ ms) = reveals_of id ms
reveals_of id (others_spectate ds ∷ ms) = reveals_of id ms
reveals_of id (all_complete n t ∷ ms) = reveals_of id ms
reveals_of id (asker_error c ∷ ms) = reveals_of id ms

unfoldable pub ends_of : List Message → ℕ
ends_of [] = 0
ends_of (all_complete n t ∷ ms) = suc (ends_of ms)
ends_of (others_reveal x n ∷ ms) = ends_of ms
ends_of (owner_roll ds ∷ ms) = ends_of ms
ends_of (others_spectate ds ∷ ms) = ends_of ms
ends_of (asker_error c ∷ ms) = ends_of ms

pub reveals_of-append :
    (id : String) (xs ys : List Message)
    → reveals_of id (xs ++ ys) ≡ reveals_of id xs + reveals_of id ys
unfolding reveals_of
reveals_of-append id [] ys = omega arith
reveals_of-append id (others_reveal x n ∷ xs) ys = ground (arith, reveals_of-append id xs ys)
reveals_of-append id (owner_roll ds ∷ xs) ys = reveals_of-append id xs ys
reveals_of-append id (others_spectate ds ∷ xs) ys = reveals_of-append id xs ys
reveals_of-append id (all_complete n t ∷ xs) ys = reveals_of-append id xs ys
reveals_of-append id (asker_error c ∷ xs) ys = reveals_of-append id xs ys

pub ends_of-append : (xs ys : List Message) → ends_of (xs ++ ys) ≡ ends_of xs + ends_of ys
unfolding ends_of
ends_of-append [] ys = omega arith
ends_of-append (others_reveal x n ∷ xs) ys = ends_of-append xs ys
ends_of-append (owner_roll ds ∷ xs) ys = ends_of-append xs ys
ends_of-append (others_spectate ds ∷ xs) ys = ends_of-append xs ys
ends_of-append (all_complete n t ∷ xs) ys = omega (arith, ends_of-append xs ys)
ends_of-append (asker_error c ∷ xs) ys = ends_of-append xs ys

abbrev pub once : Bool → ℕ
once b = if b then 1 else 0

-- After the loop, the messages have told of each newly revealed die once.
pub self_reveal-reveals :
    (ds : List Die) (revealed : List String) (id : String)
    → once (has id revealed) + reveals_of id (self_reveal ds revealed).1
      ≡ once (has id (self_reveal ds revealed).0)
unfolding self_reveal reveals_of has
self_reveal-reveals [] revealed id = omega arith
self_reveal-reveals (d ∷ ds) revealed id = elim (Bool-cases (has d.id revealed)) [
  | inl e ↦ rw e (self_reveal-reveals ds revealed id)
  | inr e ↦ rw e (ground (arith, self_reveal-reveals ds (d.id ∷ revealed) id, str_eq_iff d.id id))
]

pub self_reveal-ends :
    (ds : List Die) (revealed : List String) → ends_of (self_reveal ds revealed).1 ≡ 0
unfolding self_reveal ends_of
self_reveal-ends [] revealed = refl
self_reveal-ends (d ∷ ds) revealed = elim (Bool-cases (has d.id revealed)) [
  | inl e ↦ rw e (self_reveal-ends ds revealed)
  | inr e ↦ rw e (self_reveal-ends ds (d.id ∷ revealed))
]

pub self_reveal-keeps :
    (ds : List Die) (revealed : List String) (id : String)
    → has id revealed ≡ true
    → has id (self_reveal ds revealed).0 ≡ true
unfolding self_reveal has
self_reveal-keeps [] revealed id h = h
self_reveal-keeps (d ∷ ds) revealed id h = elim (Bool-cases (has d.id revealed)) [
  | inl e ↦ rw e (self_reveal-keeps ds revealed id h)
  | inr e ↦ rw e (self_reveal-keeps ds (d.id ∷ revealed) id (ground arith))
]

remaining-known :
    (d : Die) (ds : List Die) (revealed : List String)
    → has d.id revealed ≡ true
    → remaining revealed (d ∷ ds) ≡ remaining revealed ds
unfolding remaining
remaining-known d ds revealed e = rw e refl

self_reveal-known :
    (d : Die) (ds : List Die) (revealed : List String)
    → has d.id revealed ≡ true
    → (self_reveal (d ∷ ds) revealed).0 ≡ (self_reveal ds revealed).0
unfolding self_reveal
self_reveal-known d ds revealed e = rw e refl

self_reveal-new :
    (d : Die) (ds : List Die) (revealed : List String)
    → has d.id revealed ≡ false
    → (self_reveal (d ∷ ds) revealed).0 ≡ (self_reveal ds (d.id ∷ revealed)).0
unfolding self_reveal
self_reveal-new d ds revealed e = rw e refl

pub has_head : (id : String) (xs : List String) → has id (id ∷ xs) ≡ true
unfolding has
has_head id xs = ground (arith, str_eq_iff id id)

pub self_reveal-remaining :
    (ds : List Die) (revealed : List String) → remaining (self_reveal ds revealed).0 ds ≡ 0
unfolding remaining
self_reveal-remaining [] revealed = refl
self_reveal-remaining (d ∷ ds) revealed = elim (Bool-cases (has d.id revealed)) [
  | inl e ↦
      subst (λ z. remaining z (d ∷ ds) ≡ 0) (sym (self_reveal-known d ds revealed e))
        (remaining-known d ds (self_reveal ds revealed).0 (self_reveal-keeps ds revealed d.id e)
          ∙ self_reveal-remaining ds revealed)
  | inr e ↦
      subst (λ z. remaining z (d ∷ ds) ≡ 0) (sym (self_reveal-new d ds revealed e))
        (remaining-known d ds (self_reveal ds (d.id ∷ revealed)).0
            (self_reveal-keeps ds (d.id ∷ revealed) d.id (has_head d.id revealed))
          ∙ self_reveal-remaining ds (d.id ∷ revealed))
]

-- A die with a result is one of the dice.
pub remaining-none :
    (id : String) (ds : List Die) (revealed : List String) (n : ℤ)
    → result_of id ds ≡ some n
    → remaining revealed ds ≡ 0
    → has id revealed ≡ true
unfolding result_of remaining
remaining-none id [] revealed n e h = absurd (ground arith)
remaining-none id (d ∷ ds) revealed n e h = elim (Bool-cases (has d.id revealed)) [
  | inr c ↦ absurd (ground arith)
  | inl c ↦ elim (Bool-cases (str_eq d.id id)) [
    | inl s ↦ subst (λ z. has z revealed ≡ true) ((str_eq_iff d.id id).0 s) c
    | inr s ↦ remaining-none id ds revealed n (ground arith) (ground arith)
  ]
]
