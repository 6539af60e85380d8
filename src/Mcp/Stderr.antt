-- ===== src/Mcp/Stderr.antt =====
-- `_consume_stderr` of src/mcp/stdio_client.py: the tail of what the server writes to stderr.
use the_brain.Prelude.{
  refl, ◌≡◌, ◌≢◌, ◌∙◌, sym, ap, ℕ, ◌+◌, ◌-◌, ◌≤◌, ltb, List, [], ◌∷◌, ◌++◌, arith, length,
  append_assoc, append-nil, All, inl, inr, ◌⊎◌, Bool-cases, if◌then◌else◌, subst,
}

-- `_stderr_tail` and `_stderr_tail_size`; a chunk is a list of bytes.
pub record Tail : Type 0 where
  pub chunks : List (List ℕ)
  pub size : ℕ

abbrev pub stderr_tail_bytes : ℕ
stderr_tail_bytes = 1024

-- `deque()`
abbrev pub no_tail : Tail
no_tail = record { chunks = []; size = 0 }

-- The inner loop of `_consume_stderr`: the first chunks are dropped.
unfoldable pub drop_front : List (List ℕ) → ℕ → Tail
drop_front [] size = record { chunks = []; size = size }
drop_front (c ∷ []) size = record { chunks = c ∷ []; size = size }
drop_front (c ∷ d ∷ cs) size =
    let dropped = drop_front (d ∷ cs) (size - length c) in
    if ltb stderr_tail_bytes size then dropped else record { chunks = c ∷ d ∷ cs; size = size }

unfoldable pub consume : Tail → List ℕ → Tail
unfolding drop_front
consume t chunk = drop_front (t.chunks ++ chunk ∷ []) (t.size + length chunk)

-- The chunks that were read, in order.
unfoldable pub consume_stderr : Tail → List (List ℕ) → Tail
unfolding consume
consume_stderr t [] = t
consume_stderr t (chunk ∷ chunks) = consume_stderr (consume t chunk) chunks

-- `len(b"".join(chunks))`
abbrev pub bytes : List (List ℕ) → ℕ
bytes [] = 0
bytes (c ∷ cs) = length c + bytes cs

bytes-append : (cs ds : List (List ℕ)) → bytes (cs ++ ds) ≡ bytes cs + bytes ds
bytes-append [] ds = omega arith
bytes-append (c ∷ cs) ds = omega (arith, bytes-append cs ds)

-- The tail `t` of the chunks `cs`: their last ones, with the number of their bytes, and at most 1024 of
-- these unless it is one chunk; of some chunks the tail is not empty.
abbrev IsTail : List (List ℕ) → Tail → Type 0
IsTail cs t =
    ((dropped : List (List ℕ)) × (cs ≡ dropped ++ t.chunks))
    × (t.size ≡ bytes t.chunks)
    × ((t.size ≤ stderr_tail_bytes) ⊎ ((c : List ℕ) × (t.chunks ≡ c ∷ [])))
    × (t.chunks ≡ [] → cs ≡ [])

drop_front-IsTail :
    (cs : List (List ℕ)) (size : ℕ) → size ≡ bytes cs → IsTail cs (drop_front cs size)
unfolding drop_front
drop_front-IsTail [] size h = (([], refl), h, inl (omega arith), λ e. refl)
drop_front-IsTail (c ∷ []) size h = (([], refl), h, inr (c, refl), λ e. cc)
drop_front-IsTail (c ∷ d ∷ cs) size h = elim (Bool-cases (ltb stderr_tail_bytes size)) [
  | inl over ↦
      let ((dropped, front), counted, capped, left) =
        drop_front-IsTail (d ∷ cs) (size - length c) (omega arith) in
      rw over
        ((c ∷ dropped, ap (λ l. c ∷ l) front), counted, capped, λ e. absurd (let e' = left e in cc))
  | inr under ↦ rw under (([], refl), h, inl (ground arith), λ e. cc)
]

snoc_filled : (cs : List (List ℕ)) (c : List ℕ) → cs ++ c ∷ [] ≢ []
snoc_filled [] c h = cc
snoc_filled (d ∷ cs) c h = cc

consume-IsTail :
    (cs : List (List ℕ)) (t : Tail) (chunk : List ℕ)
    → IsTail cs t
    → IsTail (cs ++ chunk ∷ []) (consume t chunk)
unfolding consume
consume-IsTail cs t chunk ((before, front), counted, capped, left) =
    let ((dropped, shown), size_of, small, left_over) =
      drop_front-IsTail (t.chunks ++ chunk ∷ []) (t.size + length chunk)
        (omega (arith, bytes-append t.chunks (chunk ∷ []))) in
    (
      (
        before ++ dropped,
        ap (λ l. l ++ chunk ∷ []) front
            ∙ append_assoc before t.chunks (chunk ∷ [])
            ∙ ap (λ l. before ++ l) shown
            ∙ sym (append_assoc before dropped _),
      ),
      size_of,
      small,
      λ e. absurd (snoc_filled t.chunks chunk (left_over e)),
    )

consume_stderr-IsTail :
    (cs : List (List ℕ)) (t : Tail) (chunks : List (List ℕ))
    → IsTail cs t
    → IsTail (cs ++ chunks) (consume_stderr t chunks)
unfolding consume_stderr
consume_stderr-IsTail cs t [] h = rw (append-nil cs) h
consume_stderr-IsTail cs t (chunk ∷ chunks) h =
    let rest =
      consume_stderr-IsTail (cs ++ chunk ∷ []) (consume t chunk) chunks
        (consume-IsTail cs t chunk h) in
    subst (λ l. IsTail l (consume_stderr (consume t chunk) chunks))
      (append_assoc cs (chunk ∷ []) chunks) rest

bytes-suffix :
    (n : ℕ) (ds cs : List (List ℕ))
    → All (λ c. length c ≤ n) (ds ++ cs)
    → All (λ c. length c ≤ n) cs
bytes-suffix n [] cs h = h
bytes-suffix n (d ∷ ds) cs (_, h) = bytes-suffix n ds cs h

capped-bytes :
    (n : ℕ) (t : Tail)
    → All (λ c. length c ≤ n) t.chunks
    → t.size ≡ bytes t.chunks
    → (t.size ≤ stderr_tail_bytes) ⊎ ((c : List ℕ) × (t.chunks ≡ c ∷ []))
    → (t.size ≤ stderr_tail_bytes) ⊎ (t.size ≤ n)
capped-bytes n t h e (inl le) = inl le
capped-bytes n t h e (inr (c, one)) =
    inr (let (le, _) = subst (All (λ c. length c ≤ n)) one h in omega (arith, e ∙ ap bytes one))

-- The tail of what a server wrote to stderr, in chunks of at most 4096 bytes, are the last chunks, the
-- newest one included; the size that is kept for it is the number of its bytes, and is at most 4096.
pub consume_stderr-Bounded :
    (chunks : List (List ℕ))
    → All (λ c. length c ≤ 4096) chunks
    → let tail = consume_stderr no_tail chunks in
      ((dropped : List (List ℕ)) × (chunks ≡ dropped ++ tail.chunks))
      × (tail.chunks ≡ [] → chunks ≡ [])
      × (tail.size ≡ bytes tail.chunks)
      × (tail.size ≤ 4096)
consume_stderr-Bounded chunks small =
    let tail = consume_stderr no_tail chunks in
    let ((dropped, shown), counted, capped, left) =
      consume_stderr-IsTail [] no_tail chunks (([], refl), refl, inl (omega arith), λ e. refl) in
    let each =
      bytes-suffix 4096 dropped tail.chunks (subst (All (λ c. length c ≤ 4096)) shown small) in
    (
      (dropped, shown),
      left,
      counted,
      elim (capped-bytes 4096 tail each counted capped) [
        | inl le ↦ omega (arith, le)
        | inr le ↦ le
      ],
    )
