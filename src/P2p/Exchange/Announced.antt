-- ===== src/P2p/Exchange/Announced.antt =====
-- Whoever has announced itself to a bootstrap node is found there.
use gpuswarm.Common.{
  ℕ, ◌≤◌, true, false, Option, none, some, Str, str_eq, str_eq_refl, is_empty, trim_space, List, [],
  ◌∷◌, any, All, ok, ◌≡◌, refl, ap, ◌∙◌, arith, Bool-cases, inl, inr,
}
use gpuswarm.Common.Int.{ℤ, ltb_ℤ}
use gpuswarm.Common.Clock.{time_sub}
use gpuswarm.Common.Maps.{MapRange, lookup}
use gpuswarm.Model.{CapabilityDocument}
use gpuswarm.P2p.Host.{announce_error, registry_result}
use gpuswarm.P2p.Registry.{HeartbeatEntry, Node, expired, registry_capabilities}
use gpuswarm.P2p.Registry.Keyed.{Keyed, WellFormed, run-Keyed, is_named, answered}
use gpuswarm.P2p.Registry.Refines.{
  Event, announced, message, registry_listed, heartbeats_listed, Memory, step, run, recall,
  recall_all, entry_at, InOrder, live, Refines, run_agrees,
}
use gpuswarm.P2p.Streams.{serve_announce}
use gpuswarm.P2p.Exchange.{serve_registry, announce_answer, announce_to}

module _ {F : Type 0} where
  -- The registry remembers an entry of the peer that was seen at t or later.
  abbrev RemembersSince : Memory F → Str → ℕ → Type 0
  RemembersSince s k t = (e : HeartbeatEntry F) × ((s.registered k ≡ some e) × (t ≤ e.seen_at))

  recall-RemembersSince :
      (ev : Event F) (now : ℕ) (s : Memory F) (k : Str) (t : ℕ)
      → t ≤ now
      → RemembersSince s k t
      → RemembersSince (recall s ev now) k t
  unfolding recall
  recall-RemembersSince (announced doc) now s k t h r =
      elim (Bool-cases (is_empty (trim_space doc.peer_id))) [
        | inl q ↦ rw q r
        | inr q ↦ rw q (elim (Bool-cases (str_eq doc.peer_id k)) [
          | inl e ↦ (entry_at doc now, (rw e refl, h))
          | inr e ↦ (r.0, (rw e (r.1.0), r.1.1))
        ])
      ]
  recall-RemembersSince (message b none) now s k t h r = r
  recall-RemembersSince (message true (some doc)) now s k t h r = r
  recall-RemembersSince (message false (some doc)) now s k t h r = r
  recall-RemembersSince registry_listed now s k t h r = r
  recall-RemembersSince heartbeats_listed now s k t h r = r

  recall_all-RemembersSince :
      (evs : List (Event F × ℕ)) (start end : ℕ) (s : Memory F) (k : Str) (t : ℕ)
      → t ≤ start
      → InOrder start evs end
      → RemembersSince s k t
      → RemembersSince (recall_all s evs) k t
  unfolding recall_all
  recall_all-RemembersSince [] start end s k t h o r = r
  recall_all-RemembersSince ((ev, now) ∷ evs) start end s k t h o r =
      recall_all-RemembersSince evs now end _ k t (omega (arith, o.0)) o.1
        (recall-RemembersSince ev now s k t (omega (arith, o.0)) r)

  -- The entry that a node remembers of a peer, if it has not expired, is in its registry.
  lookup_of_live :
      (now : ℕ) (ttl : ℤ) (o : Option (HeartbeatEntry F)) (e : HeartbeatEntry F)
      → expired now ttl e ≡ false
      → live now ttl o ≡ live now ttl (some e)
      → o ≡ some e
  lookup_of_live now ttl none e h q = ground arith
  lookup_of_live now ttl (some d) e h q = ground arith

  expired_earlier :
      (t now : ℕ) (ttl : ℤ) (e : HeartbeatEntry F)
      → ltb_ℤ ttl (time_sub now t) ≡ false
      → t ≤ e.seen_at
      → expired now ttl e ≡ false
  unfolding expired time_sub
  expired_earlier t now ttl e h k = ground arith

  module _ (maps : MapRange) where
    abbrev memory_of : Node F → Memory F
    memory_of n = record {
      heard = λ k. lookup k n.heartbeats;
      registered = λ k. lookup k n.registry;
    }

    own-Refines : (n : Node F) (t : ℕ) → WellFormed n → Refines t n.heartbeat_ttl n (memory_of n)
    own-Refines n t w = record {
      ttl_kept = refl;
      heartbeats_agree = record { unique = w.heartbeats_unique; same = λ k. refl };
      registry_agrees = record { unique = w.registry_unique; same = λ k. refl };
    }

    announced-RemembersSince :
        (s : Memory F) (doc : CapabilityDocument F) (t : ℕ)
        → is_empty (trim_space doc.peer_id) ≡ false
        → RemembersSince (recall s (announced doc) t) doc.peer_id t
    unfolding recall
    announced-RemembersSince s doc t h = rw h (entry_at doc t, (rw str_eq_refl refl, omega arith))

    -- A node that refines a memory answers with whoever the memory has seen within the TTL.
    remembered_found :
        (n : Node F) (s : Memory F) (k : Str) (t now : ℕ) (ttl : ℤ)
        → Refines now ttl n s
        → All Keyed n.heartbeats × All Keyed n.registry
        → RemembersSince s k t
        → ltb_ℤ ttl (time_sub now t) ≡ false
        → any (is_named k) (registry_capabilities maps n now).1 ≡ true
    remembered_found n s k t now ttl r keyed (e, (f, l)) h =
        let x : expired now ttl e ≡ false = expired_earlier t now ttl e h l in
        let agree : live now ttl (lookup k n.registry) ≡ live now ttl (some e) =
          r.registry_agrees.same k ∙ ap (live now ttl) f in
        answered maps n now k e keyed (lookup_of_live now ttl _ e x agree) (rw r.ttl_kept x)

    after_announcement :
        (n : Node F) (doc : CapabilityDocument F) (t end : ℕ) (evs : List (Event F × ℕ))
        → WellFormed n
        → is_empty (trim_space doc.peer_id) ≡ false
        → InOrder t evs end
        → ltb_ℤ n.heartbeat_ttl (time_sub end t) ≡ false
        → any
            (is_named doc.peer_id)
            (registry_capabilities maps (run maps n ((announced doc, t) ∷ evs)) end).1
          ≡ true
    after_announcement n doc t end evs w named o h =
        let all : List (Event F × ℕ) = (announced doc, t) ∷ evs in
        remembered_found (run maps n all) (recall_all (memory_of n) all) doc.peer_id t end
          n.heartbeat_ttl
          (run_agrees maps n.heartbeat_ttl all t end n (memory_of n) (omega arith, o)
            (own-Refines n t w))
          (run-Keyed maps all n (w.heartbeats_keyed, w.registry_keyed))
          (unfold recall_all in
            recall_all-RemembersSince evs t end _ doc.peer_id t (omega arith) o
              (announced-RemembersSince (memory_of n) doc t named))
          h

    accepted :
        (n : Node F) (doc : CapabilityDocument F) (t : ℕ)
        → is_empty (trim_space doc.peer_id) ≡ false
        → announce_to n doc t ≡ (step maps n (announced doc) t, none)
    unfolding announce_to serve_announce announce_answer announce_error step
    accepted n doc t h = rw h refl

    answer_listed :
        (n : Node F) (now : ℕ)
        → registry_result (ok (serve_registry maps n now).1)
          ≡ ok (registry_capabilities maps n now).1
    unfolding registry_result serve_registry
    answer_listed n now = refl

    -- A document with an ID that is announced to a node is accepted, and from then on, whatever else is
    -- announced, heard and asked, a query of the node's registry gives a document of that ID, until the
    -- TTL has passed since the announcement; if the node's tables are well-formed, and times do not fall.
    pub announced_found :
        (n : Node F) (doc : CapabilityDocument F) (t end : ℕ) (evs : List (Event F × ℕ))
        → WellFormed n
        → is_empty (trim_space doc.peer_id) ≡ false
        → InOrder t evs end
        → ltb_ℤ n.heartbeat_ttl (time_sub end t) ≡ false
        → ((announce_to n doc t).1 ≡ none)
          × ((out : List (CapabilityDocument F)) × ((registry_result
                    (ok (serve_registry maps (run maps (announce_to n doc t).0 evs) end).1)
                  ≡ ok out)
                × (any (is_named doc.peer_id) out ≡ true)))
    unfolding run
    announced_found n doc t end evs w named o h =
        rw (accepted n doc t named)
          (refl, (_, (answer_listed _ end, after_announcement n doc t end evs w named o h)))
