-- ===== src/Iocp/Ownership.antt =====
-- Who owns the IO contexts of IOCPCommunication/source/IOCPBase.cpp: the send queues, the handlers and
-- the pending operations.
use my_communication.Prelude.{
  ℕ, ◌≤◌, ◌≡◌, ◌≢◌, refl, ap, ◌∙◌, false, List, [], ◌∷◌, ◌++◌, none, arith, count, count-append,
  dec_lt,
}
use my_communication.Prelude.Assoc.{lookup, lookup-erase}
use my_communication.Resource.{ResourceManage, put}
use my_communication.Resource.Invariant.{IsValid, IsLive, Handed, put-live, returned-IsValid}
use my_communication.Resource.Steps.{get_unlimited}
use my_communication.Iocp.State.{Iocp, update, get_io}

pub record IoSound (r : ResourceManage) (q : ℕ → List ℕ) : Type 0 where
  pub valid : IsValid r
  pub unlimited : r.is_limited ≡ false
  pub live : (p io : ℕ) → 1 ≤ count io (q p) → IsLive r io
  pub once : (p io : ℕ) → count io (q p) ≤ 1
  pub apart : (p p' io : ℕ) → p ≢ p' → 1 ≤ count io (q p) → count io (q p') ≡ 0

-- In use, and in no queue: held by a handler or by a pending operation.
pub record InFlight (r : ResourceManage) (q : ℕ → List ℕ) (io : ℕ) : Type 0 where
  pub live : IsLive r io
  pub unqueued : (p : ℕ) → count io (q p) ≡ 0

-- What `get_io` does to a sound state: it takes from the pool a context that no one holds.
abbrev pub GetsIo : Iocp → Type 0
GetsIo s =
    (t : ResourceManage) × ((get_io s).1 ≡ record s { rsc_io_context = t })
    × IoSound t s.queue_io_context
    × InFlight t s.queue_io_context (get_io s).0
    × ((io : ℕ)
        → InFlight s.rsc_io_context s.queue_io_context io
        → InFlight t s.queue_io_context io × (io ≢ (get_io s).0))

module _ (r : ResourceManage) (q : ℕ → List ℕ) (sound : IoSound r q) where
  pub not_queued : (io : ℕ) → lookup io r.using_list ≡ none → (p : ℕ) → count io (q p) ≡ 0
  not_queued io h p = elim (dec_lt 0 (count io (q p))) [
    | yes queued ↦ absurd (ground (arith, sound.live p io queued, h))
    | no none_ ↦ omega arith
  ]

  Handed-IoSound :
      (io : ℕ) (t : ResourceManage) → Handed r io t → t.is_limited ≡ false → IoSound t q
  Handed-IoSound io t h free = record {
    valid = h.valid;
    unlimited = free;
    live = λ p a queued.
        let held = sound.live p a queued in
        let other : a ≢ io = λ e. ground (arith, h.was_free, held, e) in h.others a other ∙ held;
    once = sound.once;
    apart = sound.apart;
  }

  Handed-InFlight : (io : ℕ) (t : ResourceManage) → Handed r io t → InFlight t q io
  Handed-InFlight io t h = record { live = h.live; unqueued = not_queued io h.was_free }

  Handed-keeps :
      (io : ℕ) (t : ResourceManage)
      → Handed r io t
      → (a : ℕ) → InFlight r q a
      → InFlight t q a × (a ≢ io)
  Handed-keeps io t h a f =
      let other : a ≢ io = λ e. ground (arith, h.was_free, f.live, e) in
      (record { live = h.others a other ∙ f.live; unqueued = f.unqueued }, other)

  -- A context in flight goes to the end of a queue.
  pub push-IoSound : (p io : ℕ) → InFlight r q io → IoSound r (update q p (q p ++ io ∷ []))
  push-IoSound p io f = record {
    valid = sound.valid;
    unlimited = sound.unlimited;
    live = λ p' a queued. ground (arith, sound.live p' a, f.live, count-append a (q p) (io ∷ []));
    once = λ p' a. ground (arith, sound.once p' a, f.unqueued p, count-append a (q p) (io ∷ []));
    apart = λ p' p'' a ne queued. ground (
      arith,
      sound.apart p' p'' a ne,
      f.unqueued p',
      f.unqueued p'',
      count-append a (q p) (io ∷ []),
    );
  }

  -- The front of a queue is taken off.
  module _ (p io : ℕ) (rest : List ℕ) (e : q p ≡ io ∷ rest) where
    pub pop-IoSound : IoSound r (update q p rest)
    pop-IoSound = record {
      valid = sound.valid;
      unlimited = sound.unlimited;
      live = λ p' a queued. ground (arith, sound.live p' a, ap (count a) e);
      once = λ p' a. ground (arith, sound.once p' a, ap (count a) e);
      apart = λ p' p'' a ne queued. ground (arith, sound.apart p' p'' a ne, ap (count a) e);
    }

    pub pop-InFlight : InFlight r (update q p rest) io
    pop-InFlight = record {
      live = sound.live p io (ground (arith, ap (count io) e));
      unqueued = λ p'. ground (arith, ap (count io) e, sound.once p io, sound.apart p p' io);
    }

    pub pop-keeps : (a : ℕ) → InFlight r q a → InFlight r (update q p rest) a × (a ≢ io)
    pop-keeps a f = (
      record { live = f.live; unqueued = λ p'. ground (arith, f.unqueued p', ap (count a) e) },
      λ same. ground (arith, f.unqueued p, ap (count a) e),
    )

  -- A context in flight is given back.
  pub put-IoSound : (io : ℕ) → InFlight r q io → IoSound (put io r).0 q
  put-IoSound io f = rw (put-live r io sound.valid f.live) (record {
    valid = returned-IsValid r io sound.valid f.live;
    unlimited = sound.unlimited;
    live = λ p a queued.
        ground (arith, sound.live p a queued, f.unqueued p, lookup-erase io a r.using_list);
    once = sound.once;
    apart = sound.apart;
  })

  pub put-keeps : (io a : ℕ) → InFlight r q io → InFlight r q a → a ≢ io → InFlight (put io r).0 q a
  put-keeps io a f g ne = rw (put-live r io sound.valid f.live) (record {
    live = ground (arith, g.live, lookup-erase io a r.using_list);
    unqueued = g.unqueued;
  })

pub get_io-GetsIo : (s : Iocp) → IoSound s.rsc_io_context s.queue_io_context → GetsIo s
unfolding get_io
get_io-GetsIo s sound =
    let (io, t, run, h, free) = get_unlimited s.rsc_io_context sound.valid sound.unlimited in
    rw (run, get_io)
      (
        t,
        refl,
        Handed-IoSound s.rsc_io_context s.queue_io_context sound io t h free,
        Handed-InFlight s.rsc_io_context s.queue_io_context sound io t h,
        Handed-keeps s.rsc_io_context s.queue_io_context sound io t h,
      )
