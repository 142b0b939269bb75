-- ===== src/Reconciler/Journal/Sound.antt =====
-- Every document of a verified record was accepted on what stood before it.
use vuoro.Prelude.{
  ℕ, suc, String, true, false, none, some, List, [], ◌∷◌, ◌≡◌, refl, subst, sym, ◌∙◌, ◌⊎◌, ◌≢◌, inl,
  inr, not, is_some, Bool-cases, nat_eq, if◌then◌else◌, ◌&&◌, ◌||◌, arith,
}
use vuoro.Prelude.Eq.{◌==◌, string_keys, option_keys}
use vuoro.Dict.{get, put, get-put, get-empty}
use vuoro.Reconciler.Journal.{
  Binding, Document, binding_document, Kind, bound, local_ready, kind_keys, JournalEvent,
  JournalRecord, Opened,
}
use vuoro.Reconciler.Journal.Copies.{ProtectedEffect, Copies}
use vuoro.Reconciler.Journal.Format.{Library, ◌>>=◌, ◌>>◌, need, read}
use vuoro.Reconciler.Journal.Payload.{accepts, payload}
use vuoro.Reconciler.Journal.Bindings.{Seen}
use vuoro.Reconciler.Journal.Verify.{
  Verified, admit, check_event, walk, only_bound, verify_binding, verify, has_terminal, is_nonempty,
  spent_matches, expected_outcome,
}
use vuoro.Reconciler.Journal.Steps.Cases.{bind-some, need-some}

-- what a dict holds, the other holds too
abbrev pub Sub : Seen → Seen → Type 0
Sub past seen = (k : Kind) (d : Document) → get past k ≡ some d → get seen k ≡ some d

put-Sub :
    (seen : Seen) (kind : Kind) (value : Document)
    → get seen kind ≡ none
    → Sub seen (put seen kind value)
put-Sub seen kind value fresh k d g =
    ground (arith, get-put seen kind value k, kind_keys.decides kind k)

module _ (l : Library) (r : JournalRecord) (effect : ProtectedEffect) (binding : Binding) where
  -- a document that was accepted on a part of what the record holds
  pub record Accepted (seen : Seen) (kind : Kind) (d : Document) : Type 0 where
    pub past : Seen
    pub within : Sub past seen
    pub test : accepts l r past effect binding kind d ≡ true

  abbrev pub Sound : Seen → Type 0
  Sound seen =
      (kind : Kind) (d : Document) → kind ≢ bound → get seen kind ≡ some d → Accepted seen kind d

  put-Sound :
      (seen : Seen) (kind : Kind) (value : Document)
      → get seen kind ≡ none
      → (kind ≡ bound) ⊎ (accepts l r seen effect binding kind value ≡ true)
      → Sound seen
      → Sound (put seen kind value)
  put-Sound seen kind value fresh accepted sound k d other g = elim (Bool-cases (kind == k)) [
    | inr f ↦
        let a = sound k d other (ground (arith, get-put seen kind value k)) in
        record {
          past = a.past;
          within = λ i e h. put-Sub seen kind value fresh i e (a.within i e h);
          test = a.test;
        }
    | inl t ↦
        let same = (kind_keys.decides kind k).0 t in
        let same_value : value ≡ d = ground (arith, get-put seen kind value k) in
        elim accepted [
          | inl b ↦ elim (other (sym same ∙ b)) [ ]
          | inr e ↦ record {
            past = seen;
            within = put-Sub seen kind value fresh;
            test =
                subst (λ x. accepts l r seen effect binding k x ≡ true) same_value
                  (subst (λ x. accepts l r seen effect binding x value ≡ true) same e);
          }
        ]
  ]

  pub admit-accepts :
      (seen : Seen) (kind : Kind) (raw : String) (value : Document)
      → admit l r effect binding seen kind raw ≡ some value
      → (accepts l r seen effect binding kind value ≡ true)
        × (not (kind == local_ready) || only_bound seen ≡ true)
  unfolding admit payload
  admit-accepts seen kind raw value h =
      let (v, p, h1) = bind-some (payload l r seen effect binding kind raw) _ value h in
      let (ready, h2) =
        need-some (not (kind == local_ready) || only_bound seen) (some v) value h1 in
      let (w, q, h3) = bind-some (read l raw _) _ v p in
      let (accepted, h4) = need-some (accepts l r seen effect binding kind w) (some w) v h3 in
      let same : w ≡ value = ground arith in
      (subst (λ x. accepts l r seen effect binding kind x ≡ true) same accepted, ready)

  -- a turn of the loop that goes on
  pub record Checked (seen next : Seen) (n : ℕ) (event : JournalEvent) : Type 0 where
    pub in_order : nat_eq event.seq n ≡ true
    pub fresh : get seen event.event_type ≡ none
    pub live : has_terminal seen ≡ false
    pub outcome :
        ((nat_eq n 0 ≡ true)
          × (event.event_type ≡ bound)
          × (event.payload_utf8 ≡ r.rows.binding_utf8)
          × (next ≡ put seen bound (binding_document binding)))
        ⊎ ((value : Document) × (admit l r effect binding seen event.event_type event.payload_utf8
              ≡ some value)
            × (next ≡ put seen event.event_type value))

  check_event-outcome :
      (seen next : Seen) (n : ℕ) (event : JournalEvent)
      → (if nat_eq n 0
          then need (event.event_type == bound && event.payload_utf8 == r.rows.binding_utf8)
            >> some (put seen bound (binding_document binding))
          else (need (not (event.event_type == bound))
              >> (admit l r effect binding seen event.event_type event.payload_utf8 >>= λ value.
                  some (put seen event.event_type value))))
        ≡ some next
      → ((nat_eq n 0 ≡ true)
          × (event.event_type ≡ bound)
          × (event.payload_utf8 ≡ r.rows.binding_utf8)
          × (next ≡ put seen bound (binding_document binding)))
        ⊎ ((value : Document) × (admit l r effect binding seen event.event_type event.payload_utf8
              ≡ some value)
            × (next ≡ put seen event.event_type value))
  check_event-outcome seen next n event h = elim (Bool-cases (nat_eq n 0)) [
    | inl t ↦ inl (
        ground (
          arith,
          kind_keys.decides event.event_type bound,
          string_keys.decides event.payload_utf8 r.rows.binding_utf8,
        ))
    | inr f ↦
        let (other, h1) =
          need-some (not (event.event_type == bound))
            (admit l r effect binding seen event.event_type event.payload_utf8 >>= λ value.
              some (put seen event.event_type value))
            next (ground arith) in
        let (value, admitted, h2) =
          bind-some (admit l r effect binding seen event.event_type event.payload_utf8) _ next h1 in
        inr (value, admitted, ground arith)
  ]

  pub check_event-some :
      (seen next : Seen) (n : ℕ) (event : JournalEvent)
      → check_event l r effect binding seen n event ≡ some next
      → Checked seen next n event
  unfolding check_event
  check_event-some seen next n event h =
      let (start, h1) =
        need-some
          (nat_eq event.seq n
            && not (is_some (get seen event.event_type))
            && not (has_terminal seen))
          _ next h in
      record {
        in_order = ground arith;
        fresh = ground arith;
        live = ground arith;
        outcome = check_event-outcome seen next n event h1;
      }

  check_event-Sound :
      (seen next : Seen) (n : ℕ) (event : JournalEvent)
      → check_event l r effect binding seen n event ≡ some next
      → Sound seen
      → Sound next
  check_event-Sound seen next n event h sound =
      let e = check_event-some seen next n event h in
      elim e.outcome [
        | inl (zero, is_bound, bytes, moved) ↦ subst Sound (sym moved) (
            put-Sound seen bound (binding_document binding)
              (subst (λ k. get seen k ≡ none) is_bound e.fresh) (inl refl) sound)
        | inr (value, admitted, moved) ↦ subst Sound (sym moved) (
            put-Sound seen event.event_type value e.fresh
              (inr (admit-accepts seen event.event_type event.payload_utf8 value admitted).0) sound)
      ]

  walk-Sound :
      (seen next : Seen) (n : ℕ) (events : List JournalEvent)
      → walk l r effect binding seen n events ≡ some next
      → Sound seen
      → Sound next
  unfolding walk
  walk-Sound seen next n [] h sound = subst Sound (ground arith) sound
  walk-Sound seen next n (event ∷ events) h sound =
      let (mid, first, later) = bind-some (check_event l r effect binding seen n event) _ next h in
      walk-Sound mid next (suc n) events later (check_event-Sound seen mid n event first sound)

  empty-Sound : Sound []
  empty-Sound kind d other g = cc (get-empty kind)

module _ (l : Library) (c : Copies) (o : Opened) where
  -- what `_verify` has found when it returns
  pub record Valid (r : JournalRecord) (v : Verified) : Type 0 where
    pub bound_to : verify_binding l c o r ≡ some (v.effect, v.binding)
    pub nonempty : is_nonempty r.rows.events ≡ true
    pub walked : walk l r v.effect v.binding [] 0 r.rows.events ≡ some v.seen
    pub spent_rows : spent_matches l v.seen r.rows.spent ≡ true
    pub outcome_row : (r.rows.outcome_utf8 == expected_outcome l v.seen) ≡ true

  pub verify-Valid : (r : JournalRecord) (v : Verified) → verify l c o r ≡ some v → Valid r v
  unfolding verify
  verify-Valid r v h =
      let ((effect, binding), bound_to, h1) = bind-some (verify_binding l c o r) _ v h in
      let (nonempty, h2) = need-some (is_nonempty r.rows.events) _ v h1 in
      let (seen, walked, h3) = bind-some (walk l r effect binding [] 0 r.rows.events) _ v h2 in
      let (spent_rows, h4) = need-some (spent_matches l seen r.rows.spent) _ v h3 in
      let (outcome_row, h5) = need-some (r.rows.outcome_utf8 == expected_outcome l seen) _ v h4 in
      let same : record { seen = seen; effect = effect; binding = binding } ≡ v = ground arith in
      subst (Valid r) same (record {
        bound_to = bound_to;
        nonempty = nonempty;
        walked = walked;
        spent_rows = spent_rows;
        outcome_row = outcome_row;
      })

  pub Valid-verify : (r : JournalRecord) (v : Verified) → Valid r v → verify l c o r ≡ some v
  unfolding verify
  Valid-verify r v h = ground (arith, h.bound_to, h.nonempty, h.walked, h.spent_rows, h.outcome_row)

  pub Valid-Sound :
      (r : JournalRecord) (v : Verified) → Valid r v → Sound l r v.effect v.binding v.seen
  Valid-Sound r v h =
      walk-Sound l r v.effect v.binding [] v.seen 0 r.rows.events h.walked
        (empty-Sound l r v.effect v.binding)
