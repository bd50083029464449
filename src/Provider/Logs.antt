-- ===== src/Provider/Logs.antt =====
-- logReader of controller/pkg/provider/handler.go: the log chunks of the agent, as a reader.
pub mod Reading
pub mod Draining
use supernetes.Prelude.{
  ℕ, ◌+◌, ◌-◌, ◌*◌, min, List, [], ◌∷◌, ◌++◌, Bool, true, false, ◌&&◌, ltb, nat_beq, if◌then◌else◌,
  length, take, drop,
}
use supernetes.Prelude.Streams.{Stream, eof, broken, message}

-- `WorkloadLogChunk`; times are in nanoseconds.
pub record Chunk : Type 0 where
  pub timestamp : ℕ
  pub line : List ℕ

-- `ContainerLogOpts`, as far as it is read
pub record Options : Type 0 where
  pub limit_bytes : ℕ
  pub tail : ℕ
  pub since_seconds : ℕ
  pub since_time : ℕ
  pub timestamps : Bool

-- `logReader`; `chunks` are those that the channel still delivers before it is closed.
pub record LogReader : Type 0 where
  pub opts : Options
  pub chunks : Stream Chunk
  pub cache : List ℕ
  pub count : ℕ
  pub closed : Bool

unfoldable pub start_reader : Stream Chunk → Options → LogReader
start_reader stream opts = record {
  opts = opts;
  chunks = stream;
  cache = [];
  count = 0;
  closed = false;
}

-- how a read ends: with nil, EOF, another error, or a slice out of bounds
pub data ReadEnd : Type 0 where
  fine at_eof failed panicked : ReadEnd

-- what a read leaves: `buffer` is the slice `p` that the caller gave
pub record ReadResult : Type 0 where
  pub reader : LogReader
  pub buffer : List ℕ
  pub n : ℕ
  pub ending : ReadEnd

-- the built-in `copy`: the destination after it, and the number of bytes copied
unfoldable pub copy : List ℕ → List ℕ → List ℕ × ℕ
copy dst src = let n = min (length dst) (length src) in (take n src ++ drop n dst, n)

-- a line that the options leave out
unfoldable pub is_old : ℕ → Options → Chunk → Bool
is_old now opts c =
    if (ltb 0 opts.since_seconds) && (ltb (opts.since_seconds * 1000000000) (now - c.timestamp))
    then true
    else ltb c.timestamp opts.since_time

-- the receive loop: the chunks from the first on that is not left out
unfoldable pub next_chunk : ℕ → Options → Stream Chunk → Stream Chunk
unfolding is_old
next_chunk now opts eof = eof
next_chunk now opts broken = broken
next_chunk now opts (message c chunks) =
    let rest = next_chunk now opts chunks in
    if ltb 0 opts.tail
    then message c chunks
    else if is_old now opts c
    then rest
    else message c chunks

-- the bytes of a line; `format` is `Format(time.RFC3339)`.
unfoldable pub render : (ℕ → List ℕ) → Options → Chunk → List ℕ
render format opts c =
    let line = c.line ++ (b'\n' ∷ []) in
    if opts.timestamps then format c.timestamp ++ (b' ' ∷ line) else line

-- Read after the cache was used, which gave `n` bytes
unfoldable pub receive_line : (ℕ → List ℕ) → LogReader → List ℕ → ℕ → Stream Chunk → ReadResult
unfolding copy render
receive_line format l p n eof = record {
  reader = record l { cache = []; chunks = eof };
  buffer = p;
  n = n;
  ending = ReadEnd.at_eof;
}
receive_line format l p n broken = record {
  reader = record l { cache = []; chunks = broken };
  buffer = p;
  n = n;
  ending = ReadEnd.failed;
}
receive_line format l p n (message c chunks) =
    let b = render format l.opts c in
    let (p2, n2) = copy p b in
    record {
      reader = record l { cache = l.cache ++ drop n2 b; chunks = chunks };
      buffer = p2;
      n = n + n2;
      ending = ReadEnd.fine;
    }

-- Read without its deferred function
unfoldable pub read_line : (ℕ → List ℕ) → ℕ → LogReader → List ℕ → ReadResult
unfolding copy next_chunk receive_line
read_line format now l p =
    let (p1, n) = copy p l.cache in
    let l1 = record l { cache = drop n l.cache } in
    let received = receive_line format l1 p1 n (next_chunk now l.opts l.chunks) in
    if nat_beq n (length p)
    then record { reader = l1; buffer = p1; n = n; ending = ReadEnd.fine }
    else received

unfoldable pub close : LogReader → LogReader
close l = record l { closed = true }

-- The deferred function. The results of Read have no names, so that it does not change what is
-- returned; `p[:len(p)-delta]` panics where `delta` exceeds the length.
unfoldable pub handle_limit : ReadResult → ReadResult
unfolding close
handle_limit r =
    let count = r.reader.count + r.n in
    let l = record r.reader { count = count } in
    if (ltb 0 l.opts.limit_bytes) && (ltb l.opts.limit_bytes count)
    then (if ltb (length r.buffer) (count - l.opts.limit_bytes)
        then record r { reader = l; ending = ReadEnd.panicked }
        else record r { reader = close l })
    else record r { reader = l }

-- `Read`, at the time `now`
unfoldable pub read : (ℕ → List ℕ) → ℕ → LogReader → List ℕ → ReadResult
unfolding read_line handle_limit
read format now l p = handle_limit (read_line format now l p)
