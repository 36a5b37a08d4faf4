-- ===== src/Proxy/ReadBody.antt =====
-- src/proxy.rs: `read_body` holds the limit, and gives every body within it back whole.
use mathlib.Core.List.{append-nil, append_assoc}
use llm_conduit.Prelude.{
  ℕ, ◌+◌, ◌≤◌, ◌<◌, ◌≡◌, ◌∙◌, List, [], ◌∷◌, ◌++◌, some, true, false, ok, err, ltb, length,
  length-append, arith, ◌↔◌, ◌⊎◌, inl, inr, Bool-cases, ltb→lt, Option-cases, ap,
}
use llm_conduit.Prelude.Text.{Bytes}
use llm_conduit.Body.{Event, chunk, trailers, failed, pending, Body, data_of}
use llm_conduit.Errors.{GatewayError}
use llm_conduit.Proxy.{read_frames, read_body, declares_more}

-- The body arrives to its end.
abbrev pub Arrives : List Event → Type 0
Arrives [] = Unit
Arrives (failed e ∷ es) = ⊥
Arrives (chunk c ∷ es) = Arrives es
Arrives (trailers ∷ es) = Arrives es
Arrives (pending ∷ es) = Arrives es

Whole : ℕ → Bytes → List Event → Bytes → Type 0
Whole max buffer es bytes =
    Arrives es × (bytes ≡ buffer ++ data_of es) × (length buffer + length (data_of es) ≤ max)

read_frames-ok :
    (max : ℕ) (buffer : Bytes) (es : List Event) (bytes : Bytes)
    → length buffer ≤ max
    → read_frames max buffer es ≡ ok bytes
    → Whole max buffer es bytes
unfolding read_frames Whole data_of
read_frames-ok max buffer [] bytes fits h = (tt, ground (arith, append-nil buffer), ground arith)
read_frames-ok max buffer (failed e ∷ es) bytes fits h = cc
read_frames-ok max buffer (trailers ∷ es) bytes fits h = read_frames-ok max buffer es bytes fits h
read_frames-ok max buffer (pending ∷ es) bytes fits h = read_frames-ok max buffer es bytes fits h
read_frames-ok max buffer (chunk c ∷ es) bytes fits h =
    elim (Bool-cases (ltb max (length buffer + length c))) [
      | inl over ↦ absurd (ground arith)
      | inr within ↦
          let longer = length-append buffer c in
          let (arrives, whole, small) =
            read_frames-ok max (buffer ++ c) es bytes (ground arith) (ground arith) in
          (
            arrives,
            whole ∙ append_assoc buffer c (data_of es),
            omega (arith, longer, small, length-append c (data_of es)),
          )
    ]

read_frames-within :
    (max : ℕ) (buffer : Bytes) (es : List Event)
    → Arrives es
    → length buffer + length (data_of es) ≤ max
    → read_frames max buffer es ≡ ok (buffer ++ data_of es)
unfolding read_frames data_of
read_frames-within max buffer [] a h = rw append-nil
read_frames-within max buffer (failed e ∷ es) a h = absurd a
read_frames-within max buffer (trailers ∷ es) a h = read_frames-within max buffer es a h
read_frames-within max buffer (pending ∷ es) a h = read_frames-within max buffer es a h
read_frames-within max buffer (chunk c ∷ es) a h =
    let parts = length-append c (data_of es) in
    let fits : ltb max (length buffer + length c) ≡ false = ground arith in
    rw fits (
      read_frames-within max (buffer ++ c) es a (omega (arith, parts, length-append buffer c))
      ∙ ap ok (append_assoc buffer c (data_of es)))

-- A body that announces its size truthfully: if it announces one, that is the size of its data.
abbrev pub IsTruthful : Body → Type 0
IsTruthful body = (len : ℕ) → body.exact ≡ some len → len ≡ length (data_of body.polls)

declares_more-truthful :
    (body : Body) (max : ℕ)
    → IsTruthful body
    → length (data_of body.polls) ≤ max
    → declares_more body.exact max ≡ false
declares_more-truthful body max truthful h = elim (Option-cases body.exact) [
  | inl silent ↦ rw silent
  | inr (len, declared) ↦ rw declared (ground (arith, truthful len declared))
]

-- Of a body that announces its size truthfully, if it does: reading it gives `bytes` exactly if
-- the body arrives to its end, `bytes` are all its data, and they are within the limit.
pub read_body_iff :
    (body : Body) (max : ℕ) (bytes : Bytes)
    → IsTruthful body
    → (read_body body max ≡ ok bytes)
      ↔ (Arrives body.polls × (bytes ≡ data_of body.polls) × (length bytes ≤ max))
unfolding read_body Whole
read_body_iff body max bytes truthful = (
  λ h. elim (Bool-cases (declares_more body.exact max)) [
    | inl more ↦ absurd (ground arith)
    | inr fits ↦
        let (arrives, whole, small) =
          read_frames-ok max [] body.polls bytes (omega arith) (ground arith) in
        (arrives, whole, omega (arith, ap length whole))
  ],
  λ (arrives, whole, small).
      rw (declares_more-truthful body max truthful (omega (arith, ap length whole)), whole)
        (read_frames-within max [] body.polls arrives (omega (arith, ap length whole))),
)

read_frames-err :
    (max : ℕ) (buffer : Bytes) (es : List Event) (e : GatewayError)
    → length buffer ≤ max
    → read_frames max buffer es ≡ err e
    → ((e.status ≡ 413) × (max < length buffer + length (data_of es)))
      ⊎ ((e.status ≡ 400) × ¬ (Arrives es))
unfolding read_frames data_of
read_frames-err max buffer [] e fits h = cc
read_frames-err max buffer (failed x ∷ es) e fits h = inr (ground arith, λ a. a)
read_frames-err max buffer (trailers ∷ es) e fits h = read_frames-err max buffer es e fits h
read_frames-err max buffer (pending ∷ es) e fits h = read_frames-err max buffer es e fits h
read_frames-err max buffer (chunk c ∷ es) e fits h =
    elim (Bool-cases (ltb max (length buffer + length c))) [
      | inl over ↦ inl (ground arith, omega (arith, ltb→lt _ _ over, length-append c (data_of es)))
      | inr within ↦ ground (
        arith,
        length-append buffer c,
        length-append c (data_of es),
        read_frames-err max (buffer ++ c) es e,
      )
    ]

-- A body that is refused exceeds the limit, by its announced size or by the data that it holds,
-- and gets a 413, or it fails to arrive and gets a 400.
pub read_body-err :
    (body : Body) (max : ℕ) (e : GatewayError)
    → read_body body max ≡ err e
    → ((e.status ≡ 413)
        × ((declares_more body.exact max ≡ true) ⊎ (max < length (data_of body.polls))))
      ⊎ ((e.status ≡ 400) × ¬ (Arrives body.polls))
unfolding read_body
read_body-err body max e h = elim (Bool-cases (declares_more body.exact max)) [
  | inl more ↦ inl (ground arith, inl more)
  | inr fits ↦ elim (read_frames-err max [] body.polls e (omega arith) (ground arith)) [
    | inl (status, over) ↦ inl (status, inr (omega arith))
    | inr failure ↦ inr failure
  ]
]

-- What reading a body gives.
pub record Decided (body : Body) (max : ℕ) : Type 0 where
  pub accepted :
      (bytes : Bytes)
      → (read_body body max ≡ ok bytes)
        ↔ (Arrives body.polls × (bytes ≡ data_of body.polls) × (length bytes ≤ max))
  pub rejected :
      (e : GatewayError)
      → read_body body max ≡ err e
      → ((e.status ≡ 413)
          × ((declares_more body.exact max ≡ true) ⊎ (max < length (data_of body.polls))))
        ⊎ ((e.status ≡ 400) × ¬ (Arrives body.polls))

-- Of a body that announces its size truthfully, if it does: reading it gives `bytes` exactly if
-- the body arrives to its end, `bytes` are all its data, and they are within the limit. A body that
-- is refused exceeds the limit, by its announced size or by the data that it holds, and gets a 413,
-- or it fails to arrive and gets a 400.
pub read_body-Decided : (body : Body) (max : ℕ) → IsTruthful body → Decided body max
read_body-Decided body max truthful = record {
  accepted = λ bytes. read_body_iff body max bytes truthful;
  rejected = read_body-err body max;
}
