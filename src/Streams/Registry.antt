-- ===== src/Streams/Registry.antt =====
-- node-streams.ts: `createStreamRegistry`. A stream id is the number of its opening, which no other
-- stream has. The queue of a body is its size in bytes; a consumer that reads takes some of them.
use reins.Base.{
  ℕ, suc, ◌+◌, ◌-◌, Bool, true, false, not, Option, none, some, List, [], ◌∷◌, ◌++◌, Text, length,
  ltb, ◌==◌, if◌then◌else◌, lookup, insert, delete,
}

pub record OpenStream : Type 0 where
  pub received : ℕ
  pub queued : ℕ

pub record Registry : Type 0 where
  pub closed : Bool
  pub next_id : ℕ
  pub streams : List (ℕ × OpenStream)

pub data Error : Type 0 where
  cancelled offset_gap over_buffer connection_closed : Error
  refused_by_node ended_with : Text → Error

-- What happens, in order: the opening request is sent, a body gets bytes, is closed or fails, the
-- promise `ended` is resolved or rejected, the node is told to cancel, or an `open` is refused.
pub data Effect : Type 0 where
  started : ℕ → Effect
  enqueued : ℕ → List ℕ → Effect
  body_closed : ℕ → Effect
  body_failed : ℕ → Error → Effect
  resolved : ℕ → Option ℕ → Effect
  rejected : ℕ → Error → Effect
  told_to_cancel : ℕ → Effect
  open_refused : Effect

unfoldable pub create : Registry
create = record { closed = false; next_id = 0; streams = [] }

-- `fail`.
unfoldable pub fail : Registry → ℕ → Error → Registry × List Effect
fail r id e = (
  record r { streams = delete id r.streams },
  body_failed id e ∷ rejected id e ∷ told_to_cancel id ∷ [],
)

-- `open`, up to the call of `start`.
unfoldable pub open_stream : Registry → Registry × List Effect
open_stream r = if r.closed then (r, open_refused ∷ []) else (
  record r {
    next_id = suc r.next_id;
    streams = r.streams ++ (suc r.next_id, record { received = 0; queued = 0 }) ∷ [];
  },
  started (suc r.next_id) ∷ [],
)

-- The `catch` of `open`: the opening request failed.
unfoldable pub start_failed : Registry → ℕ → Error → Registry × List Effect
start_failed r id e = elim (lookup id r.streams) [ none ↦ (r, []) | some _ ↦ fail r id e ]

-- `cancel` of the body, which the platform calls on a body that has neither ended nor failed.
unfoldable pub cancel_body : Registry → ℕ → Registry × List Effect
cancel_body r id = elim (lookup id r.streams) [
  | none ↦ (r, [])
  | some _ ↦
      (record r { streams = delete id r.streams }, rejected id cancelled ∷ told_to_cancel id ∷ [])
]

-- A read of at most `n` queued bytes.
unfoldable pub read_body : Registry → ℕ → ℕ → Registry × List Effect
read_body r id n = elim (lookup id r.streams) [
  | none ↦ (r, [])
  | some s ↦ (record r { streams = insert id (record s { queued = s.queued - n }) r.streams }, [])
]

-- `data`, with the bytes of the chunk decoded.
unfoldable pub receive_data : ℕ → Registry → (id offset : ℕ) → List ℕ → Registry × List Effect
receive_data max_buffered_bytes r id offset bytes = elim (lookup id r.streams) [
  | none ↦ (r, told_to_cancel id ∷ [])
  | some s ↦
      if not (offset == s.received)
      then fail r id offset_gap
      else let next = record r {
        streams =
            insert id
              (record { received = s.received + length bytes; queued = s.queued + length bytes })
              r.streams;
      } in
        if ltb max_buffered_bytes (s.queued + length bytes)
        then ((fail next id over_buffer).0, enqueued id bytes ∷ (fail next id over_buffer).1)
        else (next, enqueued id bytes ∷ [])
]

-- `end`.
unfoldable pub end_stream :
    Registry → (id : ℕ) (error : Option Text) (exit : Option ℕ) → Registry × List Effect
end_stream r id error exit =
    let next = record r { streams = delete id r.streams } in
    elim (lookup id r.streams) [
      | none ↦ (r, [])
      | some _ ↦ elim error [
        | none ↦ (next, body_closed id ∷ resolved id exit ∷ [])
        | some e ↦ (next, body_failed id (ended_with e) ∷ rejected id (ended_with e) ∷ [])
      ]
    ]

unfoldable pub fail_all : List (ℕ × OpenStream) → List Effect
fail_all [] = []
fail_all ((id, s) ∷ xs) =
    body_failed id connection_closed ∷ rejected id connection_closed ∷ fail_all xs

-- `close`.
unfoldable pub close : Registry → Registry × List Effect
close r = (record r { closed = true; streams = [] }, fail_all r.streams)

pub data Operation : Type 0 where
  opens closes : Operation
  start_fails : ℕ → Text → Operation
  cancels : ℕ → Operation
  reads : (id n : ℕ) → Operation
  receives : (id offset : ℕ) → List ℕ → Operation
  ends : ℕ → Option Text → Option ℕ → Operation

unfoldable pub step : ℕ → Registry → Operation → Registry × List Effect
step limit r opens = open_stream r
step limit r closes = close r
step limit r (start_fails id e) = start_failed r id (refused_by_node e)
step limit r (cancels id) = cancel_body r id
step limit r (reads id n) = read_body r id n
step limit r (receives id offset bytes) = receive_data limit r id offset bytes
step limit r (ends id error exit) = end_stream r id error exit

unfoldable pub run : ℕ → Registry → List Operation → Registry × List Effect
run limit r [] = (r, [])
run limit r (op ∷ ops) =
    let (next, es) = step limit r op in let (final, fs) = run limit next ops in (final, es ++ fs)
