-- ===== src/Correlator/Identity.antt =====
-- Incident numbers, and what resolving one does.
use aotanami.Prelude.{
  ap, All-Elem, ◌∙◌, Elem, none, inr, map-append, inl, length, leb, Bool-cases, sym, subst, refl,
  some, Option, All-append, ℕ, suc, ◌≤◌, ◌≡◌, ◌≢◌, List, [], ◌∷◌, ◌++◌, arith, All, map, not,
  filter, ◌==◌,
}
use aotanami.Correlator.{
  resolve, find_related, prune_old_events, stamp, Event, Incident, Engine, attach, conclude, form,
  ingest, ingest_stamped, resolve_all, resolve_incident, get_open_incidents, new_engine,
}
use aotanami.Correlator.Unique.{System, start, Step, Reach, ingested, resolved_one, here, next}

abbrev ids : List Incident → List ℕ
ids = map (λ i. i.id)

abbrev pub Distinct : List ℕ → Type 0
Distinct [] = Unit
Distinct (n ∷ ns) = All (λ m. m ≢ n) ns × Distinct ns

attach-ids :
    (now window : ℕ) (event : Event) (is : List Incident)
    → ids (attach now window event is).0 ≡ ids is
unfolding attach
attach-ids now window event [] = refl
attach-ids now window event (i ∷ is) = ground (arith, attach-ids now window event is)

resolve_all-ids : (now id : ℕ) (is : List Incident) → ids (resolve_all now id is) ≡ ids is
unfolding resolve_all
resolve_all-ids now id [] = refl
resolve_all-ids now id (i ∷ is) = ground (arith, resolve_all-ids now id is)

-- Numbers up to `n`, all different, and the next one.
record Numbered (n : ℕ) (ns : List ℕ) : Type 0 where
  bounded : All (λ m. m ≤ n) ns
  distinct : Distinct ns

Numbered-next : (n : ℕ) (ns : List ℕ) → Numbered n ns → Numbered (suc n) (ns ++ suc n ∷ [])
Numbered-next n [] h = record { bounded = omega arith; distinct = (tt, tt) }
Numbered-next n (m ∷ ns) h =
    let rest = Numbered-next n ns (record { bounded = h.bounded.1; distinct = h.distinct.1 }) in
    record {
      bounded = (omega arith, rest.bounded);
      distinct = (All-append _ ns (suc n ∷ []) h.distinct.0 (omega arith, tt), rest.distinct);
    }

abbrev NumberedEngine : Engine → Type 0
NumberedEngine e = Numbered e.incident_seq (ids e.incidents)

conclude-Numbered :
    (now : ℕ) (event : Event) (kept : List Event) (extended : List Incident) (e : Engine)
    (found : Option Incident)
    → ids extended ≡ ids e.incidents
    → NumberedEngine e
    → NumberedEngine (conclude now event kept extended e found).0
unfolding conclude
conclude-Numbered now event kept extended e (some i) same h =
    subst (Numbered e.incident_seq) (sym same) h
conclude-Numbered now event kept extended e none same h =
    let related = find_related now e.window kept event in
    elim (Bool-cases (leb 2 (length related))) [
      | inl many ↦ rw many (
          subst (Numbered (suc e.incident_seq))
            (sym (
              map-append (λ i. i.id) e.incidents
                (form now (suc e.incident_seq) event related ∷ [])))
            (unfold form in Numbered-next e.incident_seq (ids e.incidents) h))
      | inr few ↦ rw few h
    ]

Step-Numbered : {s u : System} → Step s u → NumberedEngine s.engine → NumberedEngine u.engine
unfolding ingest ingest_stamped resolve_incident
Step-Numbered {s} (ingested now event le) h =
    let e = s.engine in
    let stamped = stamp now event in
    conclude-Numbered now stamped (prune_old_events now e.window (e.events ++ stamped ∷ []))
      (attach now e.window stamped e.incidents).0 e (attach now e.window stamped e.incidents).1
      (attach-ids now e.window stamped e.incidents) h
Step-Numbered {s} (resolved_one now id le) h =
    subst (Numbered s.engine.incident_seq) (sym (resolve_all-ids now id s.engine.incidents)) h

Reach-Numbered : {s u : System} → Reach s u → NumberedEngine s.engine → NumberedEngine u.engine
Reach-Numbered here h = h
Reach-Numbered (next r st) h = Step-Numbered st (Reach-Numbered r h)

start-Numbered : (window : ℕ) → NumberedEngine (start window).engine
unfolding new_engine
start-Numbered window = record { bounded = tt; distinct = tt }

-- In every engine that operations make of a new one, no two incidents have the same number, so the
-- map holds each incident under its own id.
pub incident_ids-Distinct :
    (window : ℕ) {s : System}
    → Reach (start window) s
    → Distinct (map (λ i. i.id) s.engine.incidents)
incident_ids-Distinct window r = (Reach-Numbered r (start-Numbered window)).distinct

get_open-resolve_all :
    (now id : ℕ) (is : List Incident)
    → filter (λ i. not i.resolved) (resolve_all now id is)
      ≡ filter (λ i. not (i.id == id)) (filter (λ i. not i.resolved) is)
unfolding resolve_all
get_open-resolve_all now id [] = refl
get_open-resolve_all now id (i ∷ is) = ground (arith, get_open-resolve_all now id is)

-- Resolving an incident takes the incidents of that id off the open ones, and leaves the others as
-- they are, in their order.
pub get_open_incidents-resolve_incident :
    (now id : ℕ) (e : Engine)
    → get_open_incidents (resolve_incident now id e)
      ≡ filter (λ i. not (i.id == id)) (get_open_incidents e)
unfolding get_open_incidents resolve_incident
get_open_incidents-resolve_incident now id e = get_open-resolve_all now id e.incidents

resolve-other : (now id : ℕ) (j : Incident) → j.id ≢ id → resolve now id j ≡ j
resolve-other now id j ne = ground (arith, ne)

resolve_all-Elem :
    (now id : ℕ) (i : Incident) (is : List Incident)
    → i.id ≢ id
    → Elem i is
    → Elem i (resolve_all now id is)
unfolding resolve_all
resolve_all-Elem now id i [] ne m = m
resolve_all-Elem now id i (j ∷ is) ne (inl e) =
    inl (e ∙ sym (resolve-other now id j (subst (λ k. k.id ≢ id) e ne)))
resolve_all-Elem now id i (j ∷ is) ne (inr m) = inr (resolve_all-Elem now id i is ne m)

-- An incident with another id stays as it is.
pub resolve_incident-Elem :
    (now id : ℕ) (i : Incident) (e : Engine)
    → i.id ≢ id
    → Elem i e.incidents
    → Elem i (resolve_incident now id e).incidents
unfolding resolve_incident
resolve_incident-Elem now id i e = resolve_all-Elem now id i e.incidents

ids_differ : (n : ℕ) (is : List Incident) → All (λ m. m ≢ n) (ids is) → All (λ i. i.id ≢ n) is
ids_differ n [] h = tt
ids_differ n (i ∷ is) (h, hs) = (h, ids_differ n is hs)

-- An id tells which incident it is.
pub Distinct-same :
    (i j : Incident) (is : List Incident)
    → Distinct (map (λ k. k.id) is)
    → Elem i is
    → Elem j is
    → j.id ≡ i.id
    → j ≡ i
Distinct-same i j [] d m m' e = absurd m
Distinct-same i j (k ∷ is) (d, ds) (inl p) (inl q) e = q ∙ sym p
Distinct-same i j (k ∷ is) (d, ds) (inl p) (inr m) e =
    absurd (All-Elem (λ x. x.id ≢ k.id) j is (ids_differ k.id is d) m (e ∙ ap (λ x. x.id) p))
Distinct-same i j (k ∷ is) (d, ds) (inr m) (inl q) e =
    absurd (All-Elem (λ x. x.id ≢ k.id) i is (ids_differ k.id is d) m (sym e ∙ ap (λ x. x.id) q))
Distinct-same i j (k ∷ is) (d, ds) (inr m) (inr m') e = Distinct-same i j is ds m m' e
