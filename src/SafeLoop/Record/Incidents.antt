-- ===== src/SafeLoop/Record/Incidents.antt =====
-- The incident latch: `record_forge_incident` and `acknowledge_forge_incident` of
-- `crates/core/src/safe_loop.rs`.
use nidavellir.Shared.{
  ℕ, zero, suc, ◌-◌, ◌≡◌, refl, sym, ◌∙◌, subst, inl, inr, Bool, true, false, List, [], ◌∷◌, ◌++◌,
  String, str_eq, eq_iff, eq_refl, none, some, arith, Bool-cases, length, drop, last?, any,
  any-append,
}
use nidavellir.SafeLoop.Record.{
  ForgeIncident, SafeLoopRecord, push_capped, record_forge_incident, acknowledge,
  acknowledge_stored, acknowledge_forge_incident, is_duplicate,
}
use nidavellir.SafeLoop.Record.Capped.{last?-push_capped}

abbrev pub has_id : String → ForgeIncident → Bool
has_id key i = str_eq i.id key

-- No two stored incidents have one id.
abbrev pub AreDistinct : List ForgeIncident → Type 0
AreDistinct [] = Unit
AreDistinct (i ∷ is) = (any (has_id i.id) is ≡ false) × AreDistinct is

-- What is not in a list is not in a tail of it.
pub any-drop :
    (p : ForgeIncident → Bool) (n : ℕ) (is : List ForgeIncident)
    → any p is ≡ false
    → any p (drop n is) ≡ false
any-drop p zero is h = h
any-drop p (suc n) [] h = h
any-drop p (suc n) (i ∷ is) h = any-drop p n is (ground arith)

pub AreDistinct-drop : (n : ℕ) (is : List ForgeIncident) → AreDistinct is → AreDistinct (drop n is)
AreDistinct-drop zero is h = h
AreDistinct-drop (suc n) [] h = h
AreDistinct-drop (suc n) (i ∷ is) h = AreDistinct-drop n is h.1

pub AreDistinct-snoc :
    (is : List ForgeIncident) (i : ForgeIncident)
    → AreDistinct is
    → any (has_id i.id) is ≡ false
    → AreDistinct (is ++ i ∷ [])
AreDistinct-snoc [] i h new = (refl, tt)
AreDistinct-snoc (j ∷ is) i h new = ground (
  arith,
  AreDistinct-snoc is i h.1,
  any-append (has_id j.id) is (i ∷ []),
  eq_iff i.id j.id,
  eq_iff j.id i.id,
)

pub AreDistinct-push_capped :
    (is : List ForgeIncident) (i : ForgeIncident) (cap : ℕ)
    → AreDistinct is
    → any (has_id i.id) is ≡ false
    → AreDistinct (push_capped is i cap)
unfolding push_capped
AreDistinct-push_capped is i cap h new =
    let w = is ++ i ∷ [] in
    ground (arith, AreDistinct-snoc is i h new, AreDistinct-drop (length w - cap) w)

-- What is no duplicate has an id of its own.
pub fresh_id :
    (is : List ForgeIncident) (i : ForgeIncident)
    → any (is_duplicate i) is ≡ false
    → any (has_id i.id) is ≡ false
fresh_id [] i h = refl
fresh_id (j ∷ is) i h = ground (arith, fresh_id is i)

pub any-has_id-acknowledge_stored :
    (key k : String) (is : List ForgeIncident)
    → any (has_id k) (acknowledge_stored key is) ≡ any (has_id k) is
unfolding acknowledge_stored
any-has_id-acknowledge_stored key k [] = refl
any-has_id-acknowledge_stored key k (i ∷ is) =
    ground (arith, any-has_id-acknowledge_stored key k is)

pub AreDistinct-acknowledge_stored :
    (key : String) (is : List ForgeIncident)
    → AreDistinct is
    → AreDistinct (acknowledge_stored key is)
unfolding acknowledge_stored
AreDistinct-acknowledge_stored key [] h = tt
AreDistinct-acknowledge_stored key (i ∷ is) h =
    ground
      (arith, AreDistinct-acknowledge_stored key is h.1, any-has_id-acknowledge_stored key i.id is)

pub length-acknowledge_stored :
    (key : String) (is : List ForgeIncident) → length (acknowledge_stored key is) ≡ length is
unfolding acknowledge_stored
length-acknowledge_stored key [] = refl
length-acknowledge_stored key (i ∷ is) = ground (arith, length-acknowledge_stored key is)

last?-has_id :
    (is : List ForgeIncident) (i : ForgeIncident) → last? is ≡ some i → any (has_id i.id) is ≡ true
last?-has_id [] i h = cc
last?-has_id (j ∷ []) i h = ground (arith, eq_refl i.id)
last?-has_id (j ∷ k ∷ is) i h = ground (arith, last?-has_id (k ∷ is) i h)

-- Where the ids are distinct, the mark reaches the newest incident and no other.
last?-acknowledge_stored :
    (is : List ForgeIncident) (i : ForgeIncident)
    → AreDistinct is
    → last? is ≡ some i
    → last? (acknowledge_stored i.id is) ≡ some (acknowledge i)
unfolding acknowledge_stored
last?-acknowledge_stored [] i d h = cc
last?-acknowledge_stored (j ∷ []) i d h = ground (arith, eq_refl i.id)
last?-acknowledge_stored (j ∷ k ∷ is) i d h = elim (Bool-cases (str_eq j.id i.id)) [
  | inl same ↦
      let clash : any (has_id i.id) (k ∷ is) ≡ false =
        subst (λ key. any (has_id key) (k ∷ is) ≡ false) ((eq_iff j.id i.id).0 same) d.0 in
      cc (sym clash ∙ last?-has_id (k ∷ is) i h)
  | inr other ↦ ground (arith, last?-acknowledge_stored (k ∷ is) i d.1 h)
]

-- A stored copy makes a further report of the incident a duplicate.
refused :
    (is : List ForgeIncident) (i : ForgeIncident)
    → last? is ≡ some (acknowledge i)
    → any (is_duplicate i) is ≡ true
refused [] i h = cc
refused (j ∷ []) i h = ground (arith, eq_refl i.id)
refused (j ∷ k ∷ is) i h = ground (arith, refused (k ∷ is) i h)

-- An incident that is no duplicate, recorded among incidents of different ids, is pending and
-- newest; acknowledging it returns it marked, releases the latch, marks the stored copy, and keeps
-- the number of stored incidents. The same incident is then refused if it is recorded again.
pub acknowledge-record :
    (r : SafeLoopRecord) (i : ForgeIncident)
    → AreDistinct r.forge_incidents
    → any (is_duplicate i) r.forge_incidents ≡ false
    → let recorded = (record_forge_incident r i).0 in
      let released = (acknowledge_forge_incident recorded).0 in
      ((acknowledge_forge_incident recorded).1 ≡ some (acknowledge i))
      × (released.pending_forge_incident ≡ none)
      × (last? released.forge_incidents ≡ some (acknowledge i))
      × (length released.forge_incidents ≡ length recorded.forge_incidents)
      × (record_forge_incident released i ≡ (released, false))
unfolding record_forge_incident acknowledge_forge_incident
acknowledge-record r i d new =
    let stored = push_capped r.forge_incidents i 64 in
    let newest = last?-push_capped r.forge_incidents i 64 (omega arith) in
    let distinct =
      AreDistinct-push_capped r.forge_incidents i 64 d (fresh_id r.forge_incidents i new) in
    let marked = last?-acknowledge_stored stored i distinct newest in
    rw new (
      refl,
      refl,
      marked,
      length-acknowledge_stored i.id stored,
      rw (refused (acknowledge_stored i.id stored) i marked),
    )
