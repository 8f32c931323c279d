-- ===== src/Condemnation/Pairs/Refusal.antt =====
-- What the ledger refuses as it grows: `CondemnedPairs::refuses` and `required_apply_passes` of
-- `crates/core/src/condemnation.rs`.
use nidavellir.Shared.{
  subst, ℕ, ◌≤◌, ◌<◌, ◌≡◌, refl, ◌∙◌, inl, inr, Bool, true, false, ◌||◌, List, [], ◌∷◌, ◌++◌,
  Option, none, some, arith, String, In, any, any-append, if◌then◌else◌,
}
use nidavellir.Condemnation.Event.{CondemnationSeverity, CondemnationEvent, matches_gpu, cancels}
use nidavellir.Condemnation.Envelope.{mv_limit}
use nidavellir.Condemnation.Envelope.Floor.{AtMost, vf_floor_envelope-ge}
use nidavellir.Condemnation.Pairs.{
  CondemnedPairs, empty, push_pair, is_skipped, condemned_loop, condemned_pairs, refuses,
  required_apply_passes, requires_reproof,
}
use nidavellir.Condemnation.Pairs.Active.{Active, condemned_iff}

-- The voltages of the events are within the range of the interpolation.
abbrev pub Fits : List CondemnationEvent → Type 0
Fits [] = Unit
Fits (e ∷ es) = (e.vf_bin_mv ≤ mv_limit) × Fits es

AtMost-snoc :
    (m : ℕ) (xs : List (ℕ × ℕ)) (p : ℕ × ℕ) → AtMost m xs → p.1 ≤ m → AtMost m (xs ++ p ∷ [])
AtMost-snoc m [] p h k = (k, tt)
AtMost-snoc m (x ∷ xs) p h k = (h.0, AtMost-snoc m xs p h.1 k)

push-AtMost :
    (t : CondemnationSeverity) (m : ℕ) (out : CondemnedPairs) (e : CondemnationEvent)
    → AtMost m out.rigid × AtMost m out.quarantine
    → e.vf_bin_mv ≤ m
    → AtMost m (push_pair t e out).rigid × AtMost m (push_pair t e out).quarantine
push-AtMost CondemnationSeverity.rigid m out e h k =
    (AtMost-snoc m out.rigid (e.target_mhz, e.vf_bin_mv) h.0 k, h.1)
push-AtMost CondemnationSeverity.quarantine m out e h k =
    (h.0, AtMost-snoc m out.quarantine (e.target_mhz, e.vf_bin_mv) h.1 k)

turn-AtMost :
    (skip : Bool) (t : CondemnationSeverity) (m : ℕ) (out : CondemnedPairs) (e : CondemnationEvent)
    → AtMost m out.rigid × AtMost m out.quarantine
    → e.vf_bin_mv ≤ m
    → let next = if skip then out else push_pair t e out in
      AtMost m next.rigid × AtMost m next.quarantine
turn-AtMost true t m out e h k = h
turn-AtMost false t m out e h k = push-AtMost t m out e h k

loop-AtMost :
    (gpu : String) (out : CondemnedPairs) (events : List CondemnationEvent)
    → AtMost mv_limit out.rigid × AtMost mv_limit out.quarantine
    → Fits events
    → let out' = condemned_loop gpu out events in
      AtMost mv_limit out'.rigid × AtMost mv_limit out'.quarantine
unfolding condemned_loop
loop-AtMost gpu out [] h k = h
loop-AtMost gpu out (e ∷ later) h k =
    let skip = is_skipped gpu e later in
    loop-AtMost gpu (if skip then out else push_pair e.severity e out) later
      (turn-AtMost skip e.severity mv_limit out e h k.0) k.1

-- An event in force stays in force when events are put before it, and when events come behind it that
-- do not rehabilitate its pair.
Active-at :
    (gpu : String) (pre : List CondemnationEvent) (e : CondemnationEvent)
    (post : List CondemnationEvent)
    → matches_gpu e.gpu_key gpu ≡ true
    → e.rehabilitated ≡ false
    → any (cancels gpu e.target_mhz e.vf_bin_mv) post ≡ false
    → Active gpu e.severity e.target_mhz e.vf_bin_mv (pre ++ e ∷ post)
Active-at gpu [] e post m r c = inl ((m, r, c), refl, refl, refl)
Active-at gpu (x ∷ pre) e post m r c = inr (Active-at gpu pre e post m r c)

refuses-rigid :
    (pairs : CondemnedPairs) (clock mv c v : ℕ)
    → AtMost mv_limit pairs.rigid
    → In (c, v) pairs.rigid
    → c ≤ clock
    → mv ≤ v
    → refuses pairs clock mv ≡ true
unfolding refuses
refuses-rigid pairs clock mv c v m h hc hv =
    let (f, found, above) = vf_floor_envelope-ge pairs.rigid clock c v m h hc in
    rw found (ground arith)

refuses-quarantine :
    (pairs : CondemnedPairs) (clock mv c v : ℕ)
    → AtMost mv_limit pairs.quarantine
    → In (c, v) pairs.quarantine
    → c ≤ clock
    → mv < v
    → refuses pairs clock mv ≡ true
unfolding refuses
refuses-quarantine pairs clock mv c v m h hc hv =
    let (f, found, above) = vf_floor_envelope-ge pairs.quarantine clock c v m h hc in
    ground (arith, found)

-- A hard failure is never forgotten: whatever the ledger held before and whatever is appended
-- later, short of a rehabilitation of the exact pair on this GPU, every candidate at its clock or
-- a higher one and at its voltage or a lower one is refused. The voltages of all events are within
-- the range of the interpolation.
pub rigid_refused :
    (gpu : String) (pre : List CondemnationEvent) (e : CondemnationEvent)
    (post : List CondemnationEvent) (clock mv : ℕ)
    → Fits (pre ++ e ∷ post)
    → e.severity ≡ CondemnationSeverity.rigid
    → matches_gpu e.gpu_key gpu ≡ true
    → e.rehabilitated ≡ false
    → any (cancels gpu e.target_mhz e.vf_bin_mv) post ≡ false
    → e.target_mhz ≤ clock
    → mv ≤ e.vf_bin_mv
    → refuses (condemned_pairs (pre ++ e ∷ post) gpu) clock mv ≡ true
rigid_refused gpu pre e post clock mv fits s m r c hc hv =
    let events = pre ++ e ∷ post in
    let active =
      subst (λ t. Active gpu t e.target_mhz e.vf_bin_mv events) s
        (Active-at gpu pre e post m r c) in
    refuses-rigid (condemned_pairs events gpu) clock mv e.target_mhz e.vf_bin_mv
      (unfold condemned_pairs in (loop-AtMost gpu empty events (tt, tt) fits).0)
      ((condemned_iff events gpu e.target_mhz e.vf_bin_mv).0.1 active) hc hv

-- A quarantined pair that no later event rehabilitates on this GPU refuses every strictly lower
-- voltage at its clock or a higher one, whatever else the ledger holds. The voltages of all events
-- are within the range of the interpolation.
pub quarantine_refused :
    (gpu : String) (pre : List CondemnationEvent) (e : CondemnationEvent)
    (post : List CondemnationEvent) (clock mv : ℕ)
    → Fits (pre ++ e ∷ post)
    → e.severity ≡ CondemnationSeverity.quarantine
    → matches_gpu e.gpu_key gpu ≡ true
    → e.rehabilitated ≡ false
    → any (cancels gpu e.target_mhz e.vf_bin_mv) post ≡ false
    → e.target_mhz ≤ clock
    → mv < e.vf_bin_mv
    → refuses (condemned_pairs (pre ++ e ∷ post) gpu) clock mv ≡ true
quarantine_refused gpu pre e post clock mv fits s m r c hc hv =
    let events = pre ++ e ∷ post in
    let active =
      subst (λ t. Active gpu t e.target_mhz e.vf_bin_mv events) s
        (Active-at gpu pre e post m r c) in
    refuses-quarantine (condemned_pairs events gpu) clock mv e.target_mhz e.vf_bin_mv
      (unfold condemned_pairs in (loop-AtMost gpu empty events (tt, tt) fits).1)
      ((condemned_iff events gpu e.target_mhz e.vf_bin_mv).1.1 active) hc hv

not-Active-rehabilitated :
    (gpu : String) (s : CondemnationSeverity) (events : List CondemnationEvent)
    (r : CondemnationEvent)
    → r.rehabilitated ≡ true
    → matches_gpu r.gpu_key gpu ≡ true
    → ¬ Active gpu s r.target_mhz r.vf_bin_mv (events ++ r ∷ [])
not-Active-rehabilitated gpu s [] r h m (inl a) = ground arith
not-Active-rehabilitated gpu s [] r h m (inr a) = a
not-Active-rehabilitated gpu s (e ∷ events) r h m (inl a) =
    ground (arith, any-append (cancels gpu e.target_mhz e.vf_bin_mv) events (r ∷ []))
not-Active-rehabilitated gpu s (e ∷ events) r h m (inr a) =
    not-Active-rehabilitated gpu s events r h m a

-- A rehabilitation at the end, of this GPU or of no particular one, lifts its exact pair, whatever
-- condemned it.
pub rehabilitation_lifts :
    (gpu : String) (events : List CondemnationEvent) (r : CondemnationEvent)
    → r.rehabilitated ≡ true
    → matches_gpu r.gpu_key gpu ≡ true
    → let out = condemned_pairs (events ++ r ∷ []) gpu in
      ¬ In (r.target_mhz, r.vf_bin_mv) out.rigid × ¬ In (r.target_mhz, r.vf_bin_mv) out.quarantine
rehabilitation_lifts gpu events r h m =
    let listed = condemned_iff (events ++ r ∷ []) gpu r.target_mhz r.vf_bin_mv in
    (
      λ k. not-Active-rehabilitated gpu CondemnationSeverity.rigid events r h m (listed.0.0 k),
      λ k. not-Active-rehabilitated gpu CondemnationSeverity.quarantine events r h m (listed.1.0 k),
    )

-- The contract of a quarantine event asks for a second pass under the current one.
abbrev pub Binds : ℕ → Option ℕ → Type 0
Binds current none = Unit
Binds current (some condemned_under) = current ≤ condemned_under

turn-contracts :
    (skip : Bool) (t : CondemnationSeverity) (out : CondemnedPairs) (e : CondemnationEvent)
    (c v current : ℕ)
    → any (requires_reproof c v current) out.quarantine_contracts ≡ true
    → any
        (requires_reproof c v current)
        (if skip then out else push_pair t e out).quarantine_contracts
      ≡ true
turn-contracts true t out e c v current h = h
turn-contracts false CondemnationSeverity.rigid out e c v current h = h
turn-contracts false CondemnationSeverity.quarantine out e c v current h =
    any-append (requires_reproof c v current) out.quarantine_contracts
      ((e.target_mhz, e.vf_bin_mv, e.qualification_contract_version) ∷ [])
    ∙ rw h

any-contracts :
    (gpu : String) (out : CondemnedPairs) (events : List CondemnationEvent) (c v current : ℕ)
    → any (requires_reproof c v current) out.quarantine_contracts ≡ true
    → any (requires_reproof c v current) (condemned_loop gpu out events).quarantine_contracts ≡ true
unfolding condemned_loop
any-contracts gpu out [] c v current h = h
any-contracts gpu out (e ∷ later) c v current h =
    let skip = is_skipped gpu e later in
    any-contracts gpu (if skip then out else push_pair e.severity e out) later c v current
      (turn-contracts skip e.severity out e c v current h)

own_entry :
    (xs : List (ℕ × ℕ × Option ℕ)) (c v current : ℕ) (contract : Option ℕ)
    → Binds current contract
    → (any (requires_reproof c v current) xs
        || (requires_reproof c v current (c, v, contract) || false))
      ≡ true
own_entry xs c v current none b = ground arith
own_entry xs c v current (some under) b = ground arith

pushed-contract :
    (t : CondemnationSeverity) (out : CondemnedPairs) (e : CondemnationEvent) (current : ℕ)
    → t ≡ CondemnationSeverity.quarantine
    → Binds current e.qualification_contract_version
    → any
        (requires_reproof e.target_mhz e.vf_bin_mv current)
        (push_pair t e out).quarantine_contracts
      ≡ true
pushed-contract CondemnationSeverity.rigid out e current s b = cc
pushed-contract CondemnationSeverity.quarantine out e current s b =
    let entry : ℕ × ℕ × Option ℕ = (e.target_mhz, e.vf_bin_mv, e.qualification_contract_version) in
    any-append (requires_reproof e.target_mhz e.vf_bin_mv current) out.quarantine_contracts
      (entry ∷ [])
    ∙ own_entry out.quarantine_contracts e.target_mhz e.vf_bin_mv current
        e.qualification_contract_version b

contracts-at :
    (gpu : String) (out : CondemnedPairs) (pre : List CondemnationEvent) (e : CondemnationEvent)
    (post : List CondemnationEvent) (current : ℕ)
    → is_skipped gpu e post ≡ false
    → e.severity ≡ CondemnationSeverity.quarantine
    → Binds current e.qualification_contract_version
    → any
        (requires_reproof e.target_mhz e.vf_bin_mv current)
        (condemned_loop gpu out (pre ++ e ∷ post)).quarantine_contracts
      ≡ true
unfolding condemned_loop
contracts-at gpu out [] e post current k s b =
    any-contracts gpu (if is_skipped gpu e post then out else push_pair e.severity e out) post
      e.target_mhz e.vf_bin_mv current (rw k (pushed-contract e.severity out e current s b))
contracts-at gpu out (x ∷ pre) e post current k s b =
    contracts-at gpu
      (if is_skipped gpu x (pre ++ e ∷ post) then out else push_pair x.severity x out) pre e post
      current k s b

-- To publish a quarantined pair two full passes are asked for, as long as the quarantine is in force
-- and the contract that condemned it is the current one, a stronger one, or unknown.
pub quarantine_needs_two :
    (gpu : String) (pre : List CondemnationEvent) (e : CondemnationEvent)
    (post : List CondemnationEvent) (current : ℕ)
    → e.severity ≡ CondemnationSeverity.quarantine
    → matches_gpu e.gpu_key gpu ≡ true
    → e.rehabilitated ≡ false
    → any (cancels gpu e.target_mhz e.vf_bin_mv) post ≡ false
    → Binds current e.qualification_contract_version
    → required_apply_passes (condemned_pairs (pre ++ e ∷ post) gpu) e.target_mhz e.vf_bin_mv current
      ≡ 2
unfolding required_apply_passes condemned_pairs
quarantine_needs_two gpu pre e post current s m r c b =
    rw (contracts-at gpu empty pre e post current (ground arith) s b)
