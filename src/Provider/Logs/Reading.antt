-- ===== src/Provider/Logs/Reading.antt =====
-- What logReader.Read returns.
use supernetes.Prelude.{
  ℕ, ◌+◌, ◌≤◌, ◌<◌, min, zero, suc, List, [], ◌∷◌, ◌++◌, append-nil, true, false, ◌≡◌, refl, subst,
  ap, ◌∙◌, nat_beq, length, take, drop, arith, length-append, length-take, length-drop,
  take-append-drop,
}
use supernetes.Prelude.Streams.{Stream, message}
use supernetes.Provider.Logs.{
  Chunk, LogReader, ReadResult, ReadEnd, copy, next_chunk, render, receive_line, read_line,
  handle_limit, read,
}

pub take_of_take :
    (n : ℕ) (src rest : List ℕ) → n ≤ length src → take n (take n src ++ rest) ≡ take n src
take_of_take zero src rest h = refl
take_of_take (suc n) [] rest h = absurd (omega arith)
take_of_take (suc n) (x ∷ src) rest h = ap (λ t. x ∷ t) (take_of_take n src rest (omega arith))

pub drop-length : (xs : List ℕ) → drop (length xs) xs ≡ []
drop-length [] = refl
drop-length (x ∷ xs) = drop-length xs

-- what was copied, at the front of the destination
copy-front :
    (dst src : List ℕ)
    → take (min (length dst) (length src)) (copy dst src).0
      ≡ take (min (length dst) (length src)) src
unfolding copy
copy-front dst src =
    take_of_take (min (length dst) (length src)) src (drop (min (length dst) (length src)) dst)
      (omega arith)

copy-length : (dst src : List ℕ) → length (copy dst src).0 ≡ length dst
unfolding copy
copy-length dst src =
    let n = min (length dst) (length src) in
    omega (arith, length-append (take n src) (drop n dst), length-take n src, length-drop n dst)

-- the deferred function leaves the buffer, the number of bytes and the cache
handle_limit-keeps :
    (r : ReadResult)
    → ((handle_limit r).buffer ≡ r.buffer)
      × ((handle_limit r).n ≡ r.n)
      × ((handle_limit r).reader.cache ≡ r.reader.cache)
      × ((handle_limit r).reader.chunks ≡ r.reader.chunks)
unfolding handle_limit
handle_limit-keeps r = ground arith

module _ (format : ℕ → List ℕ) (now : ℕ) (l : LogReader) (p : List ℕ) where
  read_line-cached :
      length p ≤ length l.cache
      → read_line format now l p ≡ record {
        reader = record l { cache = drop (length p) l.cache };
        buffer = take (length p) l.cache ++ [];
        n = length p;
        ending = ReadEnd.fine;
      }
  unfolding read_line copy
  read_line-cached h =
      let all : min (length p) (length l.cache) ≡ length p = omega arith in
      let same : nat_beq (length p) (length p) ≡ true = ground arith in
      rw (all, same, drop-length p, read_line) refl

  read_line-received :
      (c : Chunk) (chunks : Stream Chunk)
      → length l.cache < length p
      → next_chunk now l.opts l.chunks ≡ message c chunks
      → read_line format now l p
        ≡ receive_line format
            (record l { cache = [] })
            (copy p l.cache).0
            (length l.cache)
            (message c chunks)
  unfolding read_line copy
  read_line-received c chunks h e =
      let all : min (length p) (length l.cache) ≡ length l.cache = omega arith in
      let more : nat_beq (length l.cache) (length p) ≡ false = ground arith in
      rw (all, more, drop-length l.cache, e, read_line) refl

  received-fields :
      (l2 : LogReader) (q : List ℕ) (n : ℕ) (c : Chunk) (chunks : Stream Chunk)
      → length q ≡ length p
      → let b = render format l2.opts c in
        let copied = min (length p) (length b) in
        let r = receive_line format l2 q n (message c chunks) in
        (r.n ≡ n + copied)
        × (take copied r.buffer ≡ take copied b)
        × (r.reader.cache ≡ l2.cache ++ drop copied b)
        × (r.reader.chunks ≡ chunks)
  unfolding receive_line
  received-fields l2 q n c chunks h =
      let b = render format l2.opts c in
      subst
        (λ size.
          (n + (copy q b).1 ≡ n + min size (length b))
          × (take (min size (length b)) (copy q b).0 ≡ take (min size (length b)) b)
          × (l2.cache ++ drop (copy q b).1 b ≡ l2.cache ++ drop (min size (length b)) b)
          × (chunks ≡ chunks))
        h (unfold copy in refl, copy-front q b, unfold copy in refl, refl)

  -- what a read that takes a chunk leaves
  read-received :
      (c : Chunk) (chunks : Stream Chunk)
      → length l.cache < length p
      → next_chunk now l.opts l.chunks ≡ message c chunks
      → let b = render format l.opts c in
        let copied = min (length p) (length b) in
        let r = read format now l p in
        (r.n ≡ length l.cache + copied)
        × (take copied r.buffer ≡ take copied b)
        × (r.reader.cache ≡ drop copied b)
        × (r.reader.chunks ≡ chunks)
  unfolding read
  read-received c chunks h e =
      let (kb, kn, kc, kk) = handle_limit-keeps (read_line format now l p) in
      let step = read_line-received c chunks h e in
      let (fn, fb, fc, fk) =
        received-fields (record l { cache = [] }) (copy p l.cache).0 (length l.cache) c chunks
          (copy-length p l.cache) in
      let copied = min (length p) (length (render format l.opts c)) in
      (
        kn ∙ ap (λ r. r.n) step ∙ fn,
        ap (take copied) (kb ∙ ap (λ r. r.buffer) step) ∙ fb,
        kc ∙ ap (λ r. r.reader.cache) step ∙ fc,
        kk ∙ ap (λ r. r.reader.chunks) step ∙ fk,
      )

  -- While the cache fills the buffer, a read returns the front of the cache, and keeps the rest of
  -- it; no chunk is received.
  read-cached :
      length p ≤ length l.cache
      → let r = read format now l p in
        (r.n ≡ length p) × (r.buffer ++ r.reader.cache ≡ l.cache) × (r.reader.chunks ≡ l.chunks)
  unfolding read
  read-cached h =
      let (b, n, c, k) = handle_limit-keeps (read_line format now l p) in
      rw (b, n, c, k, read_line-cached h, append-nil (take (length p) l.cache))
        (refl, take-append-drop (length p) l.cache, refl)

  -- With an empty cache and a buffer that is not empty, a read takes the next chunk that the
  -- options do not leave out. The bytes that it returns and then the cache that it leaves are the
  -- line of the chunk: nothing is lost where the line is longer than the buffer.
  read-line :
      (c : Chunk) (chunks : Stream Chunk)
      → l.cache ≡ []
      → 0 < length p
      → next_chunk now l.opts l.chunks ≡ message c chunks
      → let r = read format now l p in
        (r.n ≤ length p)
        × (take r.n r.buffer ++ r.reader.cache ≡ render format l.opts c)
        × (r.reader.chunks ≡ chunks)
  read-line c chunks empty some e =
      let b = render format l.opts c in
      let none_cached : length l.cache ≡ 0 = rw empty refl in
      let (n, front, rest, k) = read-received c chunks (omega arith) e in
      let n_copied : (read format now l p).n ≡ min (length p) (length b) = omega arith in
      (omega arith, rw (n_copied, front, rest) (take-append-drop (min (length p) (length b)) b), k)

  -- A read with cached bytes that do not fill the buffer copies the next line over them: the
  -- buffer begins with the line and not with the cache, and the number returned counts both.
  pub read_overwrites_cache :
      (c : Chunk) (chunks : Stream Chunk)
      → length l.cache < length p
      → next_chunk now l.opts l.chunks ≡ message c chunks
      → let r = read format now l p in
        let copied = min (length p) (length (render format l.opts c)) in
        (r.n ≡ length l.cache + copied)
        × (take copied r.buffer ≡ take copied (render format l.opts c))
  read_overwrites_cache c chunks h e =
      let (n, front, rest, k) = read-received c chunks h e in (n, front)
