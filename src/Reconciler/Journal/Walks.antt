-- ===== src/Reconciler/Journal/Walks.antt =====
-- The loop of `_verify` over a record with one more event.
use vuoro.Prelude.{
  both_true, ℕ, suc, ◌+◌, String, true, false, Option, none, some, List, [], ◌∷◌, ◌++◌, ◌≡◌, refl,
  subst, sym, ap, ◌∙◌, ◌⊎◌, inl, inr, not, Option-cases, Bool-cases, nat_eq, nat_eq_iff, length,
  ltb, leb, ◌&&◌, ◌||◌, arith,
}
use vuoro.Prelude.Eq.{◌==◌, string_keys, option_keys}
use vuoro.Dict.{Dict, get, put}
use vuoro.Reconciler.Journal.{
  Binding, Document, Kind, bound, local_ready, branch_possible, pr_possible, branch_observed,
  pr_observed, applied, refused, conflict, kind_keys, Operation, branch_create, pr_create,
  operation_keys, operation_event, JournalEvent, Rows, JournalRecord,
}
use vuoro.Reconciler.Journal.Copies.{ProtectedEffect}
use vuoro.Reconciler.Journal.Format.{Library, ◌>>=◌, read, tree}
use vuoro.Reconciler.Journal.Payload.{
  payload, accepts, accepts_local, accepts_refused, accepts_conflict, accepts_branch_request,
  accepts_pr_request, accepts_branch_observation, accepts_pr_observation, accepts_outcome,
}
use vuoro.Reconciler.Journal.Bindings.{Seen, public_binding, body_of, limit}
use vuoro.Reconciler.Journal.Verify.{admit, check_event, walk, only_bound, has_terminal}
use vuoro.Reconciler.Journal.Operations.{add_event}
use vuoro.Reconciler.Journal.Steps.{operation_of, next_rows}
use vuoro.Reconciler.Journal.Steps.Cases.{bind-some, need-some}
use vuoro.Reconciler.Journal.Sound.{admit-accepts}

bind_last {ℓ} : {A : Type ℓ} (m : Option A) → (m >>= λ a. some a) ≡ m
bind_last none = refl
bind_last (some a) = refl

bind_ext {ℓ κ} :
    {A : Type ℓ} {B : Type κ} (m : Option A) (f g : A → Option B)
    → ((a : A) → f a ≡ g a)
    → (m >>= f) ≡ (m >>= g)
bind_ext none f g h = refl
bind_ext (some a) f g h = h a

has_operation : (op : Operation) → operation_of (operation_event op) ≡ some op
has_operation branch_create = refl
has_operation pr_create = refl

-- an event that has a row of publication_spent, and one that has none
not_operation :
    (kind : Kind)
    → operation_of kind ≡ none
    → (op : Operation) → (kind == operation_event op) ≡ false
not_operation kind n op = elim (Bool-cases (kind == operation_event op)) [
  | inr f ↦ f
  | inl t ↦
      ground (
        arith,
        ap operation_of ((kind_keys.decides kind (operation_event op)).0 t),
        has_operation op,
      )
]

pub operation_of-cases :
    (kind : Kind)
    → ((operation_of kind ≡ none) × ((op : Operation) → (kind == operation_event op) ≡ false))
      ⊎ ((p : Operation) × (operation_of kind ≡ some p) × (kind ≡ operation_event p))
operation_of-cases branch_possible = inr (branch_create, refl, refl)
operation_of-cases pr_possible = inr (pr_create, refl, refl)
operation_of-cases bound = inl (refl, not_operation bound refl)
operation_of-cases local_ready = inl (refl, not_operation local_ready refl)
operation_of-cases branch_observed = inl (refl, not_operation branch_observed refl)
operation_of-cases pr_observed = inl (refl, not_operation pr_observed refl)
operation_of-cases applied = inl (refl, not_operation applied refl)
operation_of-cases refused = inl (refl, not_operation refused refl)
operation_of-cases conflict = inl (refl, not_operation conflict refl)

pub same_event : (p op : Operation) → (operation_event p == operation_event op) ≡ (p == op)
same_event branch_create branch_create = refl
same_event branch_create pr_create = refl
same_event pr_create branch_create = refl
same_event pr_create pr_create = refl

module _ (l : Library) where
  -- the checks of an event read the record's key and binding only
  pub check_event-rows :
      (key binding_utf8 copy copy' : String) (events events' : List JournalEvent)
      (spent spent' : Dict Operation String) (outcome outcome' : Option String)
      (effect : ProtectedEffect) (binding : Binding) (seen : Seen) (n : ℕ) (event : JournalEvent)
      → check_event l
          (record {
            effect_key = key;
            rows = record {
              binding_utf8 = binding_utf8;
              protected_copy_utf8 = copy;
              events = events;
              spent = spent;
              outcome_utf8 = outcome;
            };
          })
          effect
          binding
          seen
          n
          event
        ≡ check_event l
            (record {
              effect_key = key;
              rows = record {
                binding_utf8 = binding_utf8;
                protected_copy_utf8 = copy';
                events = events';
                spent = spent';
                outcome_utf8 = outcome';
              };
            })
            effect
            binding
            seen
            n
            event
  unfolding check_event admit payload accepts_local accepts_refused accepts_conflict
      accepts_branch_request accepts_pr_request accepts_branch_observation accepts_pr_observation
      accepts_outcome public_binding body_of
  check_event-rows key binding_utf8 copy copy' events events' spent spent' outcome outcome' effect
        binding seen n event =
      refl

  pub walk-append :
      (r : JournalRecord) (effect : ProtectedEffect) (binding : Binding) (seen : Seen) (n : ℕ)
      (events : List JournalEvent) (event : JournalEvent)
      → walk l r effect binding seen n (events ++ (event ∷ [])) ≡ (
          walk l r effect binding seen n events >>= λ next.
          check_event l r effect binding next (n + length events) event)
  unfolding walk
  walk-append r effect binding seen n [] event =
      bind_last (check_event l r effect binding seen n event)
      ∙ ap (λ i. check_event l r effect binding seen i event) (omega arith)
  walk-append r effect binding seen n (first ∷ events) event =
      elim (Option-cases (check_event l r effect binding seen n first)) [
        | inl refuses ↦ ground (arith, refuses)
        | inr (next, goes) ↦
            ap (λ m. m >>= λ x. walk l r effect binding x (suc n) (events ++ (event ∷ []))) goes
            ∙ walk-append r effect binding next (suc n) events event
            ∙ ap
                (λ i. walk l r effect binding next (suc n) events >>= λ x.
                  check_event l r effect binding x i event)
                (omega arith)
            ∙ ap
                (λ m. (m >>= λ x. walk l r effect binding x (suc n) events) >>= λ x.
                  check_event l r effect binding x (n + suc (length events)) event)
                (sym goes)
      ]

  pub walk-rows :
      (key : String) (kind : Kind) (raw : String) (rows : Rows) (spent : Dict Operation String)
      (outcome : Option String) (effect : ProtectedEffect) (binding : Binding) (seen : Seen) (n : ℕ)
      (events : List JournalEvent)
      → walk l
          (record { effect_key = key; rows = next_rows rows kind raw spent outcome })
          effect
          binding
          seen
          n
          events
        ≡ walk l (record { effect_key = key; rows = rows }) effect binding seen n events
  unfolding walk
  walk-rows key kind raw rows spent outcome effect binding seen n [] = refl
  walk-rows key kind raw rows spent outcome effect binding seen n (event ∷ events) =
      ap
        (λ m. m >>= λ x.
          walk l (record { effect_key = key; rows = next_rows rows kind raw spent outcome }) effect
            binding x (suc n) events)
        (check_event-rows key rows.binding_utf8 rows.protected_copy_utf8 rows.protected_copy_utf8
          (add_event rows.events kind raw) rows.events spent rows.spent outcome rows.outcome_utf8
          effect binding seen n event)
      ∙ bind_ext
          (check_event l (record { effect_key = key; rows = rows }) effect binding seen n event)
          (λ x.
            walk l (record { effect_key = key; rows = next_rows rows kind raw spent outcome })
              effect binding x (suc n) events)
          (λ x. walk l (record { effect_key = key; rows = rows }) effect binding x (suc n) events)
          (λ x. walk-rows key kind raw rows spent outcome effect binding x (suc n) events)

  admit-not_bound :
      (r : JournalRecord) (effect : ProtectedEffect) (binding : Binding) (seen : Seen) (kind : Kind)
      (raw : String) (value : Document)
      → admit l r effect binding seen kind raw ≡ some value
      → (kind == bound) ≡ false
  admit-not_bound r effect binding seen kind raw value h = elim (Bool-cases (kind == bound)) [
    | inr f ↦ f
    | inl t ↦
        let (accepted, _) = admit-accepts l r effect binding seen kind raw value h in
        cc (
          sym (
            subst (λ k. accepts l r seen effect binding k value ≡ true)
              ((kind_keys.decides kind bound).0 t) accepted))
  ]

  -- the next event of a record that walks
  pub next_event-some :
      (r : JournalRecord) (effect : ProtectedEffect) (binding : Binding) (seen : Seen) (n : ℕ)
      (kind : Kind) (raw : String) (value : Document)
      → nat_eq n 0 ≡ false
      → get seen kind ≡ none
      → has_terminal seen ≡ false
      → admit l r effect binding seen kind raw ≡ some value
      → check_event l r effect binding seen n
          (record { seq = n; event_type = kind; payload_utf8 = raw })
        ≡ some (put seen kind value)
  unfolding check_event
  next_event-some r effect binding seen n kind raw value later fresh live admitted =
      ground (arith, nat_eq_iff n n, admit-not_bound r effect binding seen kind raw value admitted)

  -- the bytes of a document that was read are its canonical ones
  pub read-canonical :
      (raw : String) (maximum : ℕ) (value : Document)
      → read l raw maximum ≡ some value
      → l.canonical value ≡ raw
  unfolding read
  read-canonical raw maximum value h =
      let (_, h1) = need-some (ltb 0 (l.size raw) && leb (l.size raw) maximum) _ value h in
      let (x, parsed, h2) = bind-some (l.parse raw) _ value h1 in
      let (checks, same) = need-some (tree x && l.canonical x == raw) (some x) value h2 in
      let same_x : x ≡ value = ground arith in
      ap l.canonical (sym same_x)
      ∙ (string_keys.decides (l.canonical x) raw).0 (both_true (tree x) _ checks).1

  pub admit-canonical :
      (r : JournalRecord) (effect : ProtectedEffect) (binding : Binding) (seen : Seen) (kind : Kind)
      (raw : String) (value : Document)
      → admit l r effect binding seen kind raw ≡ some value
      → l.canonical value ≡ raw
  unfolding admit payload
  admit-canonical r effect binding seen kind raw value h =
      let (v, p, h1) = bind-some (payload l r seen effect binding kind raw) _ value h in
      let (_, same) = need-some (not (kind == local_ready) || only_bound seen) (some v) value h1 in
      let (w, q, h2) = bind-some (read l raw (limit kind)) _ v p in
      let (_, same_w) = need-some (accepts l r seen effect binding kind w) (some w) v h2 in
      let same_x : w ≡ value = ground arith in
      read-canonical raw (limit kind) value (q ∙ ap some same_x)
