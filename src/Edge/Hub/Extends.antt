-- ===== src/Edge/Hub/Extends.antt =====
-- What one action does to the frames that a registered subscriber has been sent: it adds those
-- that the action stores, and nothing else.
use rust_uma.Prelude.{
  ℕ, ◌<◌, ◌≡◌, refl, sym, ap, ap₂, ◌∙◌, Option, none, some, false, List, [], ◌∷◌, ◌++◌, lookup,
  insert, lookup-insert, keys, nat_eq, Distinct, arith, if◌then◌else◌, append_assoc, append-nil,
  ◌==◌, String, Option-cases, inl, inr, Bool-cases, =?_iff,
}
use mathlib.Core.Option.{some-injective}
use rust_uma.Edge.Ring.{Frame}
use rust_uma.Edge.Channel.{Mpsc, Sent, delivered, full, closed, accepted}
use rust_uma.Edge.Hub.{
  Hub, Subscriber, drop_all, publish, subscribe, unsubscribe, release, kick_tokens,
}
use rust_uma.Edge.Hub.Actions.{
  Action, publishes, subscribes, unsubscribes, releases, kicks, client_reads, client_closes, touch,
  on_channel, step,
}
use rust_uma.Edge.Hub.Fanout.{lookup-fan_out, after_send, answer, kept_as}
use rust_uma.Edge.Hub.Dropping.{drop_sub-subs, drop_all-subs}

module _ (M : Mpsc) where
  open M use {
    try_send, received, queued, queued-try_send, received-try_send, recv, close, recv_in_order,
    close_keeps, channel, queued-channel, received-channel,
  }

  -- One step: `id` was registered before with the same history but for the stored frames.
  abbrev pub Extends : ℕ → Hub M → Hub M → List Frame → Type 0
  Extends id h h' stored =
      (s' : Subscriber M)
      → lookup id h'.subs ≡ some s'
      → (s : Subscriber M) × (lookup id h.subs ≡ some s)
        × (accepted M s'.tx ≡ accepted M s.tx ++ stored)

  kept_as-some :
      (f : Frame) (s s' : Subscriber M) (a : Sent)
      → answer M f s ≡ a
      → kept_as M a (some (record s { tx = (try_send s.tx f).0 })) ≡ some s'
      → accepted M s'.tx ≡ accepted M s.tx ++ (f ∷ [])
  kept_as-some f s s' delivered sent e =
      ap (λ t. accepted M t.tx) (sym (some-injective _ _ e))
      ∙ (ap₂ ◌++◌ (received-try_send s.tx f) (queued-try_send s.tx f sent)
          ∙ sym (append_assoc (received s.tx) (queued s.tx) (f ∷ [])))
  kept_as-some f s s' full sent e = cc
  kept_as-some f s s' closed sent e = cc

  after_send-some :
      (f : Frame) (o : Option (Subscriber M)) (s' : Subscriber M)
      → after_send M f o ≡ some s'
      → (s : Subscriber M) × (o ≡ some s) × (accepted M s'.tx ≡ accepted M s.tx ++ (f ∷ []))
  after_send-some f none s' e = cc
  after_send-some f (some s) s' e = (s, refl, kept_as-some f s s' (answer M f s) refl e)

  publish-Extends :
      (h : Hub M) (f : Frame) (us id : ℕ)
      → Distinct (keys h.subs)
      → Extends id h (publish M h f us).0 ((publish M h f us).1 ∷ [])
  unfolding publish
  publish-Extends h f us id d s' e =
      after_send-some _ (lookup id h.subs) s' (sym (lookup-fan_out M id _ h.subs d) ∙ e)

  -- An action that leaves a registered subscriber's entry as it was.
  unchanged-Extends :
      (h h' : Hub M) (id : ℕ)
      → ((s' : Subscriber M) → lookup id h'.subs ≡ some s' → lookup id h.subs ≡ some s')
      → Extends id h h' []
  unchanged-Extends h h' id same s' e = (s', same s' e, sym (append-nil _))

  subscribe-Extends :
      (h : Hub M) (replay : ℕ) (ip : String) (port : ℕ) (token : Option String) (now id : ℕ)
      → id < h.next_id
      → Extends id h (subscribe M h replay ip port token now).0 []
  unfolding subscribe
  subscribe-Extends h replay ip port token now id lt =
      unchanged-Extends h (subscribe M h replay ip port token now).0 id λ s' e. sym (other s') ∙ e
    where
      other :
          (s' : Subscriber M)
          → lookup id (subscribe M h replay ip port token now).0.subs ≡ lookup id h.subs
      other s' =
          lookup-insert h.next_id id _ h.subs
          ∙ (let ne : (h.next_id == id) ≡ false = ground arith in rw ne)

  touch-accepted :
      (act : M.Chan → M.Chan) (keeps : (c : M.Chan) → accepted M (act c) ≡ accepted M c)
      → (target id : ℕ) (subs : List (ℕ × Subscriber M)) (s' : Subscriber M)
      → lookup id (touch M target act subs) ≡ some s'
      → (s : Subscriber M) × (lookup id subs ≡ some s) × (accepted M s'.tx ≡ accepted M s.tx)
  touch-accepted act keeps target id subs s' e = elim (Option-cases (lookup target subs)) [
    | inl absent ↦ (s', rw (absent, touch) at e, refl)
    | inr (s, present) ↦
        touched s present (record s { tx = act s.tx }) refl (rw (present, touch) at e)
  ]
    where
      touched :
          (s : Subscriber M)
          → lookup target subs ≡ some s
          → (t : Subscriber M) → t.tx ≡ act s.tx
          → lookup id (insert target t subs) ≡ some s'
          → (u : Subscriber M) × (lookup id subs ≡ some u) × (accepted M s'.tx ≡ accepted M u.tx)
      touched s present t tx found = elim (Bool-cases (target == id)) [
        | inl same ↦
            let t_found : some t ≡ some s' =
              ap (λ b. if b then some t else lookup id subs) (sym same)
              ∙ (sym (lookup-insert target id t subs) ∙ found) in
            (
              s,
              ap (λ k. lookup k subs) (sym ((=?_iff target id).0 same)) ∙ present,
              ap (λ u. accepted M u.tx) (sym (some-injective _ _ t_found))
                  ∙ (ap (accepted M) tx ∙ keeps s.tx),
            )
        | inr other ↦ (
          s',
          ap (λ b. if b then some t else lookup id subs) (sym other)
              ∙ (sym (lookup-insert target id t subs) ∙ found),
          refl,
        )
      ]

  channel-Extends :
      (act : M.Chan → M.Chan)
      → ((c : M.Chan) → accepted M (act c) ≡ accepted M c)
      → (h : Hub M) (target id : ℕ) → Extends id h (on_channel M h target act) []
  unfolding on_channel
  channel-Extends act keeps h target id s' e =
      let (s, found, same) = touch-accepted act keeps target id h.subs s' e in
      (s, found, same ∙ sym (append-nil _))

  drop_all-Extends :
      (gone : List ℕ) (code id : ℕ) (h : Hub M) → Extends id h (drop_all M gone code h) []
  drop_all-Extends gone code id h =
      unchanged-Extends h (drop_all M gone code h) id
        λ s' e. ground (arith, drop_all-subs M gone code h id)

  unsubscribe-Extends : (h : Hub M) (target id : ℕ) → Extends id h (unsubscribe M h target) []
  unfolding unsubscribe
  unsubscribe-Extends h target id =
      unchanged-Extends h (unsubscribe M h target) id
        λ s' e. ground (arith, drop_sub-subs M h target (λ s. s) id)

  -- Every action only adds what it stores to what a subscriber has been sent.
  pub step-Extends :
      (h : Hub M) (a : Action) (id : ℕ)
      → Distinct (keys h.subs)
      → id < h.next_id
      → Extends id h (step M h a).0 (step M h a).1
  unfolding step release kick_tokens
  step-Extends h (publishes f us) id d lt = publish-Extends h f us id d
  step-Extends h (subscribes replay ip port token now) id d lt =
      subscribe-Extends h replay ip port token now id lt
  step-Extends h (unsubscribes target) id d lt = unsubscribe-Extends h target id
  step-Extends h (releases n code) id d lt = drop_all-Extends _ code id h
  step-Extends h (kicks keep) id d lt = drop_all-Extends _ 1008 id h
  step-Extends h (client_reads target) id d lt = channel-Extends recv recv_in_order h target id
  step-Extends h (client_closes target) id d lt = channel-Extends close close_keeps h target id
