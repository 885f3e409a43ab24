-- ===== src/P2p/Registry/Refines.antt =====
-- The tables of a node, which are pruned now and then, behave as tables that are never pruned.
use gpuswarm.Common.{
  ℕ, ◌≤◌, Bool, true, false, not, Option, none, some, Str, str_eq, is_empty, trim_space, List, [],
  ◌∷◌, if◌then◌else◌, ◌≡◌, refl, subst, sym, ap, ◌∙◌, arith, Bool-cases, inl, inr,
}
use gpuswarm.Common.Int.{ℤ}
use gpuswarm.Common.Clock.{time_sub}
use gpuswarm.Common.Maps.{GoMap, MapRange, lookup, insert, lookup-insert}
use gpuswarm.Common.Unique.{Unique, kept_if, insert-Unique, passing-Unique, lookup-passing}
use gpuswarm.Model.{CapabilityDocument}
use gpuswarm.P2p.Registry.Answers.{
  Answers, newest, Live, pruned_lookup, heartbeats-Answers, registry-Answers,
}
use gpuswarm.P2p.Registry.{
  HeartbeatEntry, Node, expired, prune_locked, heartbeats, registry_capabilities, dated,
  upsert_registry_capability, consume_heartbeat,
}

-- A call of a method of the node, or a message on the heartbeats' topic.
pub data Event (F : Type 0) : Type 0 where
  announced : CapabilityDocument F → Event F
  message : Bool → Option (CapabilityDocument F) → Event F
  registry_listed heartbeats_listed : Event F

-- The tables as functions that remember the latest entry of each peer for good.
pub record Memory (F : Type 0) : Type 0 where
  pub heard : Str → Option (HeartbeatEntry F)
  pub registered : Str → Option (HeartbeatEntry F)

module _ {F : Type 0} where
  unfoldable pub step : MapRange → Node F → Event F → ℕ → Node F
  step maps n (announced cap) now = upsert_registry_capability n cap now
  step maps n (message from_self cap) now = consume_heartbeat n from_self cap now
  step maps n registry_listed now = (registry_capabilities maps n now).0
  step maps n heartbeats_listed now = (heartbeats maps n now).0

  unfoldable pub run : MapRange → Node F → List (Event F × ℕ) → Node F
  run maps n [] = n
  run maps n ((ev, now) ∷ evs) = run maps (step maps n ev now) evs

  abbrev pub entry_at : CapabilityDocument F → ℕ → HeartbeatEntry F
  entry_at cap now = record { cap = dated cap now; seen_at = now }

  abbrev pub update :
      (Str → Option (HeartbeatEntry F)) → Str → HeartbeatEntry F → Str → Option (HeartbeatEntry F)
  update f j e k = if str_eq j k then some e else f k

  unfoldable pub recall : Memory F → Event F → ℕ → Memory F
  recall s (announced cap) now =
      if is_empty (trim_space cap.peer_id)
      then s
      else record s { registered = update s.registered cap.peer_id (entry_at cap now) }
  recall s (message from_self none) now = s
  recall s (message from_self (some cap)) now =
      if from_self then s else record s { heard = update s.heard cap.peer_id (entry_at cap now) }
  recall s registry_listed now = s
  recall s heartbeats_listed now = s

  unfoldable pub recall_all : Memory F → List (Event F × ℕ) → Memory F
  recall_all s [] = s
  recall_all s ((ev, now) ∷ evs) = recall_all (recall s ev now) evs

  -- The times do not fall, from `start` on, and `end` is not before the last.
  abbrev pub InOrder : ℕ → List (Event F × ℕ) → ℕ → Type 0
  InOrder start [] end = start ≤ end
  InOrder start ((ev, now) ∷ evs) end = (start ≤ now) × InOrder now evs end

  -- What is left of an entry at a time.
  abbrev pub live : ℕ → ℤ → Option (HeartbeatEntry F) → Option (HeartbeatEntry F)
  live now ttl o = kept_if (λ e. not (expired now ttl e)) o

  expired_later :
      (t u : ℕ) (ttl : ℤ) (e : HeartbeatEntry F)
      → t ≤ u
      → expired t ttl e ≡ true
      → expired u ttl e ≡ true
  unfolding expired time_sub
  expired_later t u ttl e h k = ground arith

  live_later :
      (t u : ℕ) (ttl : ℤ) (o : Option (HeartbeatEntry F))
      → t ≤ u
      → live u ttl (live t ttl o) ≡ live u ttl o
  live_later t u ttl none h = refl
  live_later t u ttl (some e) h = ground (arith, expired_later t u ttl e)

  -- A table and what is remembered agree on what is alive at a time.
  pub record Agrees (now : ℕ) (ttl : ℤ) (m : GoMap (HeartbeatEntry F))
      (f : Str → Option (HeartbeatEntry F)) : Type 0 where
    pub unique : Unique m
    pub same : (k : Str) → live now ttl (lookup k m) ≡ live now ttl (f k)

  module _ {ttl : ℤ} {m : GoMap (HeartbeatEntry F)} {f : Str → Option (HeartbeatEntry F)} where
    Agrees-later : {t u : ℕ} → t ≤ u → Agrees t ttl m f → Agrees u ttl m f
    Agrees-later {t} {u} h a = record {
      unique = a.unique;
      same = λ k.
          sym (live_later t u ttl (lookup k m) h)
          ∙ (ap (live u ttl) (a.same k) ∙ live_later t u ttl (f k) h);
    }

    Agrees-insert :
        {now : ℕ} (j : Str) (e : HeartbeatEntry F)
        → Agrees now ttl m f
        → Agrees now ttl (insert j e m) (update f j e)
    Agrees-insert {now} j e a = record {
      unique = insert-Unique j e m a.unique;
      same = λ k.
          rw (lookup-insert j k e m)
            (elim (Bool-cases (str_eq j k)) [ inl q ↦ rw q refl | inr q ↦ rw q (a.same k) ]);
    }

    Agrees-prune : {now : ℕ} → Agrees now ttl m f → Agrees now ttl (prune_locked now ttl m) f
    unfolding prune_locked
    Agrees-prune {now} a = record {
      unique = passing-Unique (λ e. not (expired now ttl e)) m a.unique;
      same = λ k.
          ap (live now ttl) (lookup-passing (λ e. not (expired now ttl e)) k m a.unique)
          ∙ (live_later now now ttl (lookup k m) (omega arith) ∙ a.same k);
    }

  pub record Refines (now : ℕ) (ttl : ℤ) (n : Node F) (s : Memory F) : Type 0 where
    pub ttl_kept : n.heartbeat_ttl ≡ ttl
    pub heartbeats_agree : Agrees now ttl n.heartbeats s.heard
    pub registry_agrees : Agrees now ttl n.registry s.registered

  Refines-later :
      {t u : ℕ} {ttl : ℤ} {n : Node F} {s : Memory F}
      → t ≤ u
      → Refines t ttl n s
      → Refines u ttl n s
  Refines-later h r = record {
    ttl_kept = r.ttl_kept;
    heartbeats_agree = Agrees-later h r.heartbeats_agree;
    registry_agrees = Agrees-later h r.registry_agrees;
  }

  pruned :
      {now : ℕ} {ttl : ℤ} {m : GoMap (HeartbeatEntry F)} {f : Str → Option (HeartbeatEntry F)}
      (own : ℤ)
      → own ≡ ttl
      → Agrees now ttl m f
      → Agrees now ttl (prune_locked now own m) f
  pruned {now} {ttl} {m} {f} own e a =
      subst (λ x. Agrees now ttl (prune_locked now x m) f) (sym e) (Agrees-prune a)

  module _ (maps : MapRange) (ttl : ℤ) where
    step-Refines :
        (ev : Event F) (t now : ℕ) (n : Node F) (s : Memory F)
        → t ≤ now
        → Refines t ttl n s
        → Refines now ttl (step maps n ev now) (recall s ev now)
    unfolding step recall upsert_registry_capability consume_heartbeat registry_capabilities
        heartbeats
    step-Refines (announced cap) t now n s h r =
        let later = Refines-later h r in
        elim (Bool-cases (is_empty (trim_space cap.peer_id))) [
          | inl e ↦ rw e later
          | inr e ↦ rw e (record {
            ttl_kept = r.ttl_kept;
            heartbeats_agree = later.heartbeats_agree;
            registry_agrees = Agrees-insert cap.peer_id (entry_at cap now) later.registry_agrees;
          })
        ]
    step-Refines (message from_self none) t now n s h r = Refines-later h r
    step-Refines (message true (some cap)) t now n s h r = Refines-later h r
    step-Refines (message false (some cap)) t now n s h r =
        let later = Refines-later h r in
        record {
          ttl_kept = r.ttl_kept;
          heartbeats_agree = Agrees-insert cap.peer_id (entry_at cap now) later.heartbeats_agree;
          registry_agrees = later.registry_agrees;
        }
    step-Refines registry_listed t now n s h r =
        let later = Refines-later h r in
        record {
          ttl_kept = r.ttl_kept;
          heartbeats_agree = pruned n.heartbeat_ttl r.ttl_kept later.heartbeats_agree;
          registry_agrees = pruned n.heartbeat_ttl r.ttl_kept later.registry_agrees;
        }
    step-Refines heartbeats_listed t now n s h r =
        let later = Refines-later h r in
        record {
          ttl_kept = r.ttl_kept;
          heartbeats_agree = pruned n.heartbeat_ttl r.ttl_kept later.heartbeats_agree;
          registry_agrees = later.registry_agrees;
        }

    pub run_agrees :
        (evs : List (Event F × ℕ)) (start end : ℕ) (n : Node F) (s : Memory F)
        → InOrder start evs end
        → Refines start ttl n s
        → Refines end ttl (run maps n evs) (recall_all s evs)
    unfolding run recall_all
    run_agrees [] start end n s o r = Refines-later o r
    run_agrees ((ev, now) ∷ evs) start end n s o r =
        run_agrees evs now end _ _ o.1 (step-Refines ev start now n s o.0 r)

    agreeing-Live :
        (now : ℕ) (n : Node F) (m : GoMap (HeartbeatEntry F)) (f : Str → Option (HeartbeatEntry F))
        → n.heartbeat_ttl ≡ ttl
        → Agrees now ttl m f
        → Live n now m (λ k. live now ttl (f k))
    agreeing-Live now n m f e a = record {
      unique = a.unique;
      live = λ k. ap (λ t. live now t (lookup k m)) e ∙ a.same k;
    }

    -- The two queries of a node answer exactly what is remembered and has not expired, and leave no
    -- more than that in the tables.
    pub record Explains (now : ℕ) (n : Node F) (s : Memory F) : Type 0 where
      pub refines : Refines now ttl n s
      pub heartbeats_answer : Answers (λ k. live now ttl (s.heard k)) (heartbeats maps n now).1
      pub registry_answer :
          Answers
            (λ k. newest (live now ttl (s.heard k)) (live now ttl (s.registered k)))
            (registry_capabilities maps n now).1
      pub heartbeats_left :
          (k : Str)
          → lookup k (registry_capabilities maps n now).0.heartbeats ≡ live now ttl (s.heard k)
      pub registry_left :
          (k : Str)
          → lookup k (registry_capabilities maps n now).0.registry ≡ live now ttl (s.registered k)

    Refines-Explains :
        (now : ℕ) (n : Node F) (s : Memory F) → Refines now ttl n s → Explains now n s
    Refines-Explains now n s r =
        let h = agreeing-Live now n n.heartbeats s.heard r.ttl_kept r.heartbeats_agree in
        let g = agreeing-Live now n n.registry s.registered r.ttl_kept r.registry_agrees in
        record {
          refines = r;
          heartbeats_answer =
              heartbeats-Answers maps n now _ (λ k. live now ttl (s.registered k)) h;
          registry_answer = registry-Answers maps n now _ _ h g;
          heartbeats_left =
              λ k. unfold registry_capabilities in pruned_lookup n now n.heartbeats _ h k;
          registry_left = λ k. unfold registry_capabilities in pruned_lookup n now n.registry _ g k;
        }

    -- Whatever is announced, heard and asked in between, at any time not before the last event, the two
    -- queries of the node answer exactly with the documents of the latest heartbeat and announcement of
    -- each peer that have not expired, of a peer's two that which was seen last; and a query of the
    -- registry leaves exactly those entries in the tables.
    pub run-Refines :
        (evs : List (Event F × ℕ)) (start end : ℕ) (n : Node F) (s : Memory F)
        → InOrder start evs end
        → Refines start ttl n s
        → Explains end (run maps n evs) (recall_all s evs)
    run-Refines evs start end n s o r = Refines-Explains end _ _ (run_agrees evs start end n s o r)
