-- ===== src/Pool/Held.antt =====
-- The live workers of the store, as the bag of slots that the quota must hold. `pending` are slots
-- that other calls have reserved and not yet given to a worker.
use runner_engine.Prelude.{
  ℕ, zero, suc, ◌+◌, ◌≤◌, ◌<◌, String, true, false, ◌≡◌, refl, Bool-cases, inl, inr, List, ◌∷◌,
  arith, if◌then◌else◌, string_eq, ◌==◌, count, length, nat_beq, nat_beq_iff,
}
use runner_engine.Model.{Worker, Ref}
use runner_engine.Pool.{set_worker}
use runner_engine.Quota.{Quota}
use runner_engine.Quota.Slots.{Holds}

abbrev pub held : List String → (Ref → Worker) → ℕ → List String
held pending ws zero = pending
held pending ws (suc n) =
    let rest = held pending ws n in if (ws n).destroyed then rest else (ws n).tenant_id ∷ rest

module _ (pending : List String) (ws : Ref → Worker) (r : Ref) (w : Worker) where
  pub held_above : (n : ℕ) → n ≤ r → held pending (set_worker ws r w) n ≡ held pending ws n
  held_above zero h = refl
  held_above (suc n) h = ground (arith, held_above n)

  -- An assignment that leaves the tenant and the mark `destroyed` alone.
  pub held_kept :
      w.destroyed ≡ (ws r).destroyed
      → w.tenant_id ≡ (ws r).tenant_id
      → (n : ℕ) → held pending (set_worker ws r w) n ≡ held pending ws n
  held_kept d t zero = refl
  held_kept d t (suc n) = elim (Bool-cases (nat_beq n r)) [
    | inl here ↦ let e : n ≡ r = (nat_beq_iff n r).0 here in rw (held_kept d t n, here, d, t, e)
    | inr there ↦ rw (there, held_kept d t n)
  ]

  -- An assignment that marks a live worker as destroyed gives back one slot of its tenant.
  pub count-held_retired :
      w.destroyed ≡ true
      → (ws r).destroyed ≡ false
      → (t : String) (n : ℕ) → r < n
      → count t (held pending ws n)
        ≡ count t (held pending (set_worker ws r w) n) + (if (ws r).tenant_id == t then 1 else 0)
  count-held_retired d live t zero h = elim h [ ]
  count-held_retired d live t (suc n) h = elim (Bool-cases (nat_beq n r)) [
    | inl here ↦
        let e : n ≡ r = (nat_beq_iff n r).0 here in
        rw (here, d, e, live, held_above r (omega arith)) (ground arith)
    | inr there ↦ rw there (ground (arith, count-held_retired d live t n (ground arith)))
  ]

  pub length-held_retired :
      w.destroyed ≡ true
      → (ws r).destroyed ≡ false
      → (n : ℕ) → r < n
      → length (held pending ws n) ≡ suc (length (held pending (set_worker ws r w) n))
  length-held_retired d live zero h = elim h [ ]
  length-held_retired d live (suc n) h = elim (Bool-cases (nat_beq n r)) [
    | inl here ↦
        let e : n ≡ r = (nat_beq_iff n r).0 here in
        rw (here, d, e, live, held_above r (omega arith)) (ground arith)
    | inr there ↦ rw there (ground (arith, length-held_retired d live n (ground arith)))
  ]

-- A reserved slot counts like a worker's.
pub count-held_pending :
    (pending : List String) (ws : Ref → Worker) (tenant t : String) (n : ℕ)
    → count t (held (tenant ∷ pending) ws n) ≡ count t (tenant ∷ held pending ws n)
count-held_pending pending ws tenant t zero = refl
count-held_pending pending ws tenant t (suc n) =
    ground (arith, count-held_pending pending ws tenant t n)

pub length-held_pending :
    (pending : List String) (ws : Ref → Worker) (tenant : String) (n : ℕ)
    → length (held (tenant ∷ pending) ws n) ≡ suc (length (held pending ws n))
length-held_pending pending ws tenant zero = refl
length-held_pending pending ws tenant (suc n) =
    ground (arith, length-held_pending pending ws tenant n)

-- `Holds` reads a bag only by its counts.
pub Holds-cong :
    (q : Quota) (xs ys : List String)
    → length xs ≡ length ys
    → ((t : String) → count t xs ≡ count t ys)
    → Holds q xs
    → Holds q ys
Holds-cong q xs ys l c h = record {
  live_count = ground (arith, h.live_count);
  tenant_counts = λ t. ground (arith, c t, h.tenant_counts t);
  within = ground (arith, h.within);
  tenant_within = λ t. ground (arith, c t, h.tenant_within t);
}

-- The next place of the store, taken by a live worker.
pub held_placed :
    (pending : List String) (ws : Ref → Worker) (w : Worker) (n : ℕ)
    → w.destroyed ≡ false
    → held pending (set_worker ws n w) (suc n) ≡ w.tenant_id ∷ held pending ws n
held_placed pending ws w n d =
    rw ((nat_beq_iff n n).1 refl, d, held_above pending ws n w n (omega arith)) refl
