-- ===== src/Reconciler/Journal/History.antt =====
-- The journal is a history: what it holds of an effect is only added to, and a settled effect keeps its
-- rows.
use mathlib.Core.List.{append_assoc, append-nil}
use vuoro.Prelude.{
  String, true, some, List, [], ◌∷◌, ◌++◌, ◌≡◌, refl, subst, sym, ap, ◌∙◌, inl, inr, length,
  Bool-cases, arith,
}
use vuoro.Prelude.Eq.{◌==◌, string_keys}
use vuoro.Dict.{get, get-put}
use vuoro.Reconciler.Journal.{Kind, JournalEvent, Rows, Journal, Opened}
use vuoro.Reconciler.Journal.Copies.{Copies}
use vuoro.Reconciler.Journal.Format.{Library, holds}
use vuoro.Reconciler.Journal.Verify.{Verified, has_terminal, verify}
use vuoro.Reconciler.Journal.Steps.{
  JournalCall, next_rows, new_rows, perform, Appended, Step, kept, bound_row, appended, run,
}
use vuoro.Reconciler.Journal.Steps.Performs.{perform-Step}

-- the later rows of an effect have its binding, its copy, and its events with more after them
pub record Grows (old new : Rows) : Type 0 where
  pub more : List JournalEvent
  pub same_binding : new.binding_utf8 ≡ old.binding_utf8
  pub same_copy : new.protected_copy_utf8 ≡ old.protected_copy_utf8
  pub longer : new.events ≡ old.events ++ more

Grows-refl : (rows : Rows) → Grows rows rows
Grows-refl rows = record {
  more = [];
  same_binding = refl;
  same_copy = refl;
  longer = sym (append-nil rows.events);
}

Grows-trans : (old mid new : Rows) → Grows old mid → Grows mid new → Grows old new
Grows-trans old mid new g h = record {
  more = g.more ++ h.more;
  same_binding = h.same_binding ∙ g.same_binding;
  same_copy = h.same_copy ∙ g.same_copy;
  longer = h.longer ∙ ap (λ x. x ++ h.more) g.longer ∙ append_assoc old.events g.more h.more;
}

found-rows :
    (j : Journal) (at key : String) (a b : Rows)
    → at ≡ key
    → get j.records at ≡ some a
    → get j.records key ≡ some b
    → a ≡ b
found-rows j at key a b same found g = ground (arith, ap (get j.records) same)

module _ (l : Library) (c : Copies) (o : Opened) where
  Appended-unsettled :
      (j : Journal) (at : String) (kind : Kind) (raw : String) (a : Appended l c o j at kind raw)
      (key : String) (rows : Rows) (v : Verified)
      → at ≡ key
      → verify l c o (record { effect_key = key; rows = rows }) ≡ some v
      → has_terminal v.seen ≡ true
      → get j.records key ≡ some rows
      → ⊥
  Appended-unsettled j at kind raw a key rows v same valid settled g =
      let same_rows : a.rows ≡ rows = found-rows j at key a.rows rows same a.found g in
      let same_v : some a.verified ≡ some v =
        sym a.valid
        ∙ ap (λ x. verify l c o (record { effect_key = x; rows = a.rows })) same
        ∙ ap (λ x. verify l c o (record { effect_key = key; rows = x })) same_rows
        ∙ valid in
      ground (arith, ap (λ x. holds x (λ w. has_terminal w.seen)) same_v, a.live)

  Step-settled :
      (j k : Journal) (key : String) (rows : Rows) (v : Verified)
      → verify l c o (record { effect_key = key; rows = rows }) ≡ some v
      → has_terminal v.seen ≡ true
      → Step l c o j k
      → get j.records key ≡ some rows
      → get k.records key ≡ some rows
  Step-settled j k key rows v valid settled kept g = g
  Step-settled j k key rows v valid settled (bound_row at binding copy absent) g =
      ground (arith, get-put j.records at (new_rows binding copy) key, string_keys.decides at key)
  Step-settled j k key rows v valid settled (appended at kind raw a) g =
      elim (Bool-cases (at == key)) [
        | inr f ↦
            ground (arith, get-put j.records at (next_rows a.rows kind raw a.spent a.outcome) key)
        | inl t ↦
            elim (Appended-unsettled j at kind raw a key rows v ((string_keys.decides at key).0 t)
              valid settled g) [ ]
      ]

  -- An effect that is settled, APPLIED, REFUSED or in CONFLICT, keeps its rows, whatever calls follow.
  pub settled_stays :
      (calls : List JournalCall) (j : Journal) (key : String) (rows : Rows) (v : Verified)
      → get j.records key ≡ some rows
      → verify l c o (record { effect_key = key; rows = rows }) ≡ some v
      → has_terminal v.seen ≡ true
      → get (run l c o calls j).records key ≡ some rows
  unfolding run
  settled_stays [] j key rows v g valid settled = g
  settled_stays (call ∷ calls) j key rows v g valid settled =
      settled_stays calls (perform l c o call j).0 key rows v
        (Step-settled j (perform l c o call j).0 key rows v valid settled
          (perform-Step l c o call j) g)
        valid settled

  Step-Grows :
      (j k : Journal) (key : String) (rows : Rows)
      → Step l c o j k
      → get j.records key ≡ some rows
      → (next : Rows) × (get k.records key ≡ some next) × Grows rows next
  Step-Grows j k key rows kept g = (rows, g, Grows-refl rows)
  Step-Grows j k key rows (bound_row at binding copy absent) g = (
    rows,
    ground (arith, get-put j.records at (new_rows binding copy) key, string_keys.decides at key),
    Grows-refl rows,
  )
  Step-Grows j k key rows (appended at kind raw a) g = elim (Bool-cases (at == key)) [
    | inr f ↦ (
      rows,
      ground (arith, get-put j.records at (next_rows a.rows kind raw a.spent a.outcome) key),
      Grows-refl rows,
    )
    | inl t ↦ (
      next_rows a.rows kind raw a.spent a.outcome,
      ground (arith, get-put j.records at (next_rows a.rows kind raw a.spent a.outcome) key),
      subst (λ x. Grows x (next_rows a.rows kind raw a.spent a.outcome))
          (found-rows j at key a.rows rows ((string_keys.decides at key).0 t) a.found g)
          (record {
            more =
                record { seq = length a.rows.events; event_type = kind; payload_utf8 = raw } ∷ [];
            same_binding = refl;
            same_copy = refl;
            longer = refl;
          }),
    )
  ]

  -- Whatever calls follow, an effect keeps its binding and its copy, and its events stay in their order
  -- at the front of the later ones.
  pub run-Grows :
      (calls : List JournalCall) (j : Journal) (key : String) (rows : Rows)
      → get j.records key ≡ some rows
      → (next : Rows) × (get (run l c o calls j).records key ≡ some next) × Grows rows next
  unfolding run
  run-Grows [] j key rows g = (rows, g, Grows-refl rows)
  run-Grows (call ∷ calls) j key rows g =
      let (mid, found, first) =
        Step-Grows j (perform l c o call j).0 key rows (perform-Step l c o call j) g in
      let (last, found_last, then_more) = run-Grows calls (perform l c o call j).0 key mid found in
      (last, found_last, Grows-trans rows mid last first then_more)
