-- ===== src/Transports/Http/Body.antt =====
-- `execute_rpc` of src/transports/http.rs: the response body is read chunk by chunk.
use rust_web.Prelude.{
  ℕ, ◌+◌, ◌≤◌, ◌≡◌, refl, sym, ap, ◌∙◌, List, [], ◌∷◌, ◌++◌, Option, none, some, length,
  length-append, append-nil, append_assoc, Bool, true, false, not, arith, ltb, leb, if◌then◌else◌,
  le→ltb-false, ltb-false→le, if-else, not-false,
}
use rust_web.Error.{Error, Result, ok, err, ◌>>=◌, TransportError, format, bind-ok}

-- The error of both size checks.
abbrev pub too_large : ℕ → Error
too_large max =
    Error.transport (
      TransportError.message (format "HTTP response exceeded {max_response_size} bytes" (max ∷ [])))

-- What the server sends: the status, the declared length of the body, and the body's chunks, each
-- of which may be a failure to read.
pub record HttpResponse : Type 0 where
  pub status : ℕ
  pub content_length : Option ℕ
  pub chunks : List (Result (List ℕ))

-- `.is_some_and(|length| length > max_response_size)`
abbrev pub declared_too_large : Option ℕ → ℕ → Bool
declared_too_large none max = false
declared_too_large (some n) max = ltb max n

-- StatusCode::is_success
abbrev pub is_success : ℕ → Bool
is_success status = if leb 200 status then ltb status 300 else false

-- `while let Some(chunk) = response_stream.next().await`, with the bytes so far
unfoldable pub read_chunks : ℕ → List ℕ → List (Result (List ℕ)) → Result (List ℕ)
read_chunks max response [] = ok response
read_chunks max response (err e ∷ chunks) = err e
read_chunks max response (ok chunk ∷ chunks) =
    let rest = read_chunks max (response ++ chunk) chunks in
    if ltb max (length response + length chunk) then err (too_large max) else rest

-- execute_rpc, from the response on; `sent` is what `send().await` returned.
unfoldable pub execute_rpc : {A : Type 0} → (List ℕ → Result A) → ℕ → Result HttpResponse → Result A
execute_rpc deserialize max sent = do
  response ← sent
  if declared_too_large response.content_length max then err (too_large max) else do
    body ← read_chunks max [] response.chunks
    if not (is_success response.status)
        then err (Error.transport (TransportError.code response.status))
        else deserialize body

-- The bytes that the chunks hold, if each of them was read.
abbrev pub total : List (Result (List ℕ)) → Result (List ℕ)
total [] = ok []
total (err e ∷ chunks) = err e
total (ok chunk ∷ chunks) = do rest ← total chunks; ok (chunk ++ rest)

read_chunks_sound :
    (max : ℕ) (response : List ℕ) (chunks : List (Result (List ℕ))) (body : List ℕ)
    → length response ≤ max
    → read_chunks max response chunks ≡ ok body
    → (length body ≤ max) × (rest : List ℕ) × (total chunks ≡ ok rest) × (body ≡ response ++ rest)
unfolding read_chunks
read_chunks_sound max response [] body h e =
    let b : response ≡ body = cc in (rw (← b) h, [], refl, sym b ∙ sym (append-nil response))
read_chunks_sound max response (err x ∷ chunks) body h e = cc
read_chunks_sound max response (ok chunk ∷ chunks) body h e =
    let (small, next) = if-else (ltb max (length response + length chunk)) (λ p. cc p) e in
    let ih =
      read_chunks_sound max (response ++ chunk) chunks body (rw length-append (ltb-false→le small))
        next in
    (ih.0, chunk ++ ih.1, rw ih.2, ih.3 ∙ append_assoc response chunk ih.1)

read_chunks_complete :
    (max : ℕ) (response : List ℕ) (chunks : List (Result (List ℕ))) (rest : List ℕ)
    → total chunks ≡ ok rest
    → length response + length rest ≤ max
    → read_chunks max response chunks ≡ ok (response ++ rest)
unfolding read_chunks
read_chunks_complete max response [] rest e h = let b : [] ≡ rest = cc in rw (← b, append-nil)
read_chunks_complete max response (err x ∷ chunks) rest e h = cc
read_chunks_complete max response (ok chunk ∷ chunks) rest e h =
    let (r, q, s) = bind-ok (total chunks) (λ r. ok (chunk ++ r)) e in
    let b : chunk ++ r ≡ rest = cc in
    let n : length chunk + length r ≡ length rest = sym (length-append chunk r) ∙ ap length b in
    let ih =
      read_chunks_complete max (response ++ chunk) chunks r q
        (rw length-append (omega (arith, n, h))) in
    let small : length response + length chunk ≤ max = omega (arith, n, h) in
    rw (le→ltb-false small) (ih ∙ ap ok (append_assoc response chunk r ∙ ap (λ t. response ++ t) b))

-- A response is accepted only if the request was answered with a success status, every chunk was
-- read, and the chunks together have at most `max` bytes; its value is what the deserializer makes
-- of exactly those bytes.
pub execute_rpc_sound :
    {A : Type 0} (deserialize : List ℕ → Result A) (max : ℕ) (sent : Result HttpResponse) (a : A)
    → execute_rpc deserialize max sent ≡ ok a
    → (response : HttpResponse) × (body : List ℕ) × (sent ≡ ok response)
      × (total response.chunks ≡ ok body)
      × (length body ≤ max)
      × (is_success response.status ≡ true)
      × (deserialize body ≡ ok a)
unfolding execute_rpc
execute_rpc_sound deserialize max (err e) a h = cc
execute_rpc_sound deserialize max (ok response) a h =
    let (_, h1) = if-else (declared_too_large response.content_length max) (λ p. cc p) h in
    let (body, read, h2) = bind-ok (read_chunks max [] response.chunks) _ h1 in
    let (fine, h3) = if-else (not (is_success response.status)) (λ p. cc p) h2 in
    let (fits, rest, whole, same) =
      read_chunks_sound max [] response.chunks body (omega arith) read in
    (response, body, refl, whole ∙ ap ok (sym same), fits, not-false fine, h3)

-- Nothing that fits is refused: with a success status and no larger declared length, chunks of at
-- most `max` bytes in all are deserialized whole, wherever the chunks are cut.
pub execute_rpc_complete :
    {A : Type 0} (deserialize : List ℕ → Result A) (max : ℕ) (response : HttpResponse)
    (body : List ℕ)
    → declared_too_large response.content_length max ≡ false
    → is_success response.status ≡ true
    → total response.chunks ≡ ok body
    → length body ≤ max
    → execute_rpc deserialize max (ok response) ≡ deserialize body
unfolding execute_rpc
execute_rpc_complete deserialize max response body d s t h =
    rw (d, read_chunks_complete max [] response.chunks body t (omega (arith, h)), s)
