-- ===== src/Serving/Arrival.antt =====
-- streams.ts and node-streams.ts: a stream that a node serves, taken by the registry of the server.
use reins.Base.{
  sym, append-nil, ℕ, ◌+◌, ◌≡◌, ◌≤◌, refl, ap, ◌∙◌, false, Option, none, some, List, [], ◌∷◌, ◌++◌,
  length, length-append, flatten, arith, All, lookup, insert, delete, lookup-insert,
}
use reins.Serving.Pump.{Frame, chunk, finish, done, Sender, as_it_is, nothing, pump}
use reins.Serving.Frames.{carried, Follows}
use reins.Serving.Whole.{always, IsChunk, pump-IsWhole}
use reins.Streams.Registry.{
  OpenStream, Registry, Effect, enqueued, body_closed, resolved, Operation, receives, ends,
  end_stream, step, run,
}
use reins.Streams.Content.{delivered, advanced, receive_data_next}

-- The frames of a stream as the server gets them.
unfoldable pub arrivals : ℕ → List Frame → List Operation
arrivals id [] = []
arrivals id (chunk offset bytes ∷ fs) = receives id offset bytes ∷ arrivals id fs
arrivals id (finish error exit ∷ fs) = ends id error exit ∷ arrivals id fs

-- The chunks of a stream reach its body, if its buffer takes them.
run-arrivals :
    (limit : ℕ) (fs gs : List Frame) (r : Registry) (id : ℕ) (s : OpenStream)
    → All IsChunk fs
    → Follows s.received fs
    → lookup id r.streams ≡ some s
    → s.queued + length (carried fs) ≤ limit
    → (q : Registry) × (es : List Effect) × (run limit r (arrivals id (fs ++ gs))
        ≡ ((run limit q (arrivals id gs)).0, es ++ (run limit q (arrivals id gs)).1))
      × (delivered id es ≡ carried fs)
      × (lookup id q.streams ≡ some (advanced s (length (carried fs))))
unfolding run step arrivals carried delivered
run-arrivals limit [] gs r id s c f h l = (r, [], refl, refl, ground (arith, h))
run-arrivals limit (chunk at bytes ∷ fs) gs r id s c f h l =
    let next =
      receive_data_next limit r id s bytes h (omega (arith, l, length-append bytes (carried fs))) in
    let (q, es, e, d, k) =
      run-arrivals limit fs gs
        (record r { streams = insert id (advanced s (length bytes)) r.streams }) id
        (advanced s (length bytes)) c.1 f.1
        (ground (arith, lookup-insert id id (advanced s (length bytes)) r.streams))
        (omega (arith, l, length-append bytes (carried fs))) in
    (
      q,
      enqueued id bytes ∷ es,
      ground (arith, f.0, next, e),
      ground (arith, d),
      k ∙ ap some (ground (arith, length-append bytes (carried fs))),
    )
run-arrivals limit (finish error exit ∷ fs) gs r id s c f h l = absurd c.0

end_stream_open :
    (limit : ℕ) (r : Registry) (id : ℕ) (s : OpenStream) (exit : Option ℕ)
    → lookup id r.streams ≡ some s
    → run limit r (arrivals id (finish none exit ∷ []))
      ≡ (record r { streams = delete id r.streams }, body_closed id ∷ resolved id exit ∷ [])
unfolding run step arrivals end_stream
end_stream_open limit r id s exit h = ground (arith, h)

-- A binary stream that a node serves on a link that takes every chunk, for which the server has a new
-- open stream whose buffer holds it: the body gets exactly the bytes of the source, in order, it is
-- then closed, and `ended` is resolved with the exit of the source's process.
pub run-arrivals-pump :
    (limit : ℕ) (r : Registry) (id : ℕ) (s : Sender (Unit {0})) (cs : List (List ℕ))
    (exit : Option ℕ)
    → s.stopped ≡ false
    → s.offset ≡ 0
    → lookup id r.streams ≡ some (record { received = 0; queued = 0 })
    → length (flatten cs) ≤ limit
    → (es : List Effect) × ((run limit r
          (arrivals id (pump as_it_is nothing always s cs (done exit)))).1
        ≡ es ++ body_closed id ∷ resolved id exit ∷ [])
      × (delivered id es ≡ flatten cs)
run-arrivals-pump limit r id s cs exit h z o l =
    let w =
      pump-IsWhole as_it_is nothing nothing (λ d piece. sym (append-nil piece)) (λ d. refl) s cs
        exit h z refl in
    let (q, es, e, d, f) =
      run-arrivals limit w.front (finish none exit ∷ []) r id (record { received = 0; queued = 0 })
        w.chunks w.follows o (omega (arith, l, ap length w.content_carried)) in
    (
      es,
      ap (λ t. (run limit r (arrivals id t)).1) w.ends
          ∙ ap (λ t. t.1) e
          ∙ ap (λ t. es ++ t.1) (end_stream_open limit q id _ exit f),
      d ∙ w.content_carried,
    )
