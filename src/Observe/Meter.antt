-- ===== src/Observe/Meter.antt =====
-- src/observe.rs: the meter passes a body on unchanged, counts it, and reports it once.
use llm_conduit.Prelude.{
  ℕ, zero, suc, ◌+◌, ◌%◌, ◌<◌, ◌≡◌, refl, ◌∙◌, List, [], ◌∷◌, Option, none, some, not, ◌||◌, ltb,
  length, take, drop, arith, length-append,
}
use llm_conduit.Prelude.Text.{Bytes}
use llm_conduit.Body.{Event, chunk, trailers, failed, pending, data_of}
use llm_conduit.Usage.Types.{u64_mod}
use llm_conduit.Observe.{
  MeteredBody, metered, observed, poll_inner, poll_times, is_complete, is_exactly, drop_body,
}

-- What a client that polls a body `n` times is given, with no meter in between.
abbrev pub unmetered : ℕ → List Event → List (Option Event)
unmetered zero es = []
unmetered (suc n) [] = none ∷ unmetered n []
unmetered (suc n) (e ∷ es) = some e ∷ unmetered n es

take-nil : (n : ℕ) → ◌≡◌ {A = List Event} (take n []) []
take-nil zero = refl
take-nil (suc n) = refl

drop-nil : (n : ℕ) → ◌≡◌ {A = List Event} (drop n []) []
drop-nil zero = refl
drop-nil (suc n) = refl

module _ {O : Type 0} (observe : O → Bytes → O) where
  -- The observer's state after it has seen the data frames in order.
  abbrev pub observed_all : Option O → List Event → Option O
  observed_all o [] = o
  observed_all o (chunk c ∷ es) = observed_all (observed observe o c) es
  observed_all o (trailers ∷ es) = observed_all o es
  observed_all o (failed e ∷ es) = observed_all o es
  observed_all o (pending ∷ es) = observed_all o es

  pub record IsMetered (n : ℕ) (m m' : MeteredBody O) (given : List (Option Event)) : Type 0 where
    pub passed_on : given ≡ unmetered n m.inner
    pub rest : m'.inner ≡ drop n m.inner
    pub counted : m'.bytes ≡ (m.bytes + length (data_of (take n m.inner))) % u64_mod
    pub seen : m'.observer ≡ observed_all m.observer (take n m.inner)
    pub ended : m'.finished ≡ (m.finished || ltb (length m.inner) n)
    pub expected : m'.expected ≡ m.expected
    pub report_due : m'.report_due ≡ m.report_due

  IsMetered-none : (m : MeteredBody O) → m.bytes < u64_mod → IsMetered 0 m m []
  unfolding data_of
  IsMetered-none m h = record {
    passed_on = refl;
    rest = refl;
    counted = ground arith;
    seen = refl;
    ended = ground arith;
    expected = refl;
    report_due = refl;
  }

  IsMetered-end :
      (n : ℕ) (m m' : MeteredBody O) (given : List (Option Event))
      → m.inner ≡ []
      → m.bytes < u64_mod
      → IsMetered n (poll_inner observe m []).0 m' given
      → IsMetered (suc n) m m' (none ∷ given)
  unfolding poll_inner data_of
  IsMetered-end n m m' given e h k = record {
    passed_on = rw (k.passed_on, e) refl;
    rest = k.rest ∙ rw (e, drop-nil n) refl;
    counted = k.counted ∙ rw (e, take-nil n) refl;
    seen = k.seen ∙ rw (e, take-nil n) refl;
    ended = rw e (ground (arith, k.ended));
    expected = k.expected;
    report_due = k.report_due;
  }

  IsMetered-chunk :
      (n : ℕ) (c : Bytes) (es : List Event) (m m' : MeteredBody O) (given : List (Option Event))
      → m.inner ≡ chunk c ∷ es
      → m.bytes < u64_mod
      → IsMetered n (poll_inner observe m (chunk c ∷ es)).0 m' given
      → IsMetered (suc n) m m' (some (chunk c) ∷ given)
  unfolding poll_inner data_of
  IsMetered-chunk n c es m m' given e h k = record {
    passed_on = rw (e, k.passed_on);
    rest = rw (e, k.rest);
    counted = rw e (k.counted ∙ ground (arith, length-append c (data_of (take n es))));
    seen = rw (e, k.seen);
    ended = rw e (ground (arith, k.ended));
    expected = k.expected;
    report_due = k.report_due;
  }

  -- A frame that holds no data and ends nothing.
  record IsBare (ev : Event) : Type 0 where
    empty : (es : List Event) → data_of (ev ∷ es) ≡ data_of es
    unseen : (o : Option O) (es : List Event) → observed_all o (ev ∷ es) ≡ observed_all o es

  IsMetered-bare :
      (n : ℕ) (ev : Event) (es : List Event) (m m' : MeteredBody O) (given : List (Option Event))
      → IsBare ev
      → m.inner ≡ ev ∷ es
      → IsMetered n (record m { inner = es }) m' given
      → IsMetered (suc n) m m' (some ev ∷ given)
  IsMetered-bare n ev es m m' given b e k = record {
    passed_on = rw (e, k.passed_on);
    rest = rw (e, k.rest);
    counted = k.counted ∙ rw (e, b.empty (take n es)) refl;
    seen = k.seen ∙ rw (e, b.unseen m.observer (take n es)) refl;
    ended = rw e (ground (arith, k.ended));
    expected = k.expected;
    report_due = k.report_due;
  }

  IsMetered-suc :
      (n : ℕ) (es : List Event) (m m' : MeteredBody O) (given : List (Option Event))
      → m.inner ≡ es
      → m.bytes < u64_mod
      → IsMetered n (poll_inner observe m es).0 m' given
      → IsMetered (suc n) m m' ((poll_inner observe m es).1 ∷ given)
  unfolding poll_inner data_of
  IsMetered-suc n [] m m' given e h k = IsMetered-end n m m' given e h k
  IsMetered-suc n (chunk c ∷ es) m m' given e h k = IsMetered-chunk n c es m m' given e h k
  IsMetered-suc n (trailers ∷ es) m m' given e h k =
      IsMetered-bare n trailers es m m' given (record { empty = λ es. refl; unseen = λ o es. refl })
        e k
  IsMetered-suc n (failed x ∷ es) m m' given e h k =
      IsMetered-bare n (failed x) es m m' given
        (record { empty = λ es. refl; unseen = λ o es. refl }) e k
  IsMetered-suc n (pending ∷ es) m m' given e h k =
      IsMetered-bare n pending es m m' given (record { empty = λ es. refl; unseen = λ o es. refl })
        e k

  poll_inner-lt :
      (m : MeteredBody O) (es : List Event)
      → m.bytes < u64_mod
      → (poll_inner observe m es).0.bytes < u64_mod
  unfolding poll_inner
  poll_inner-lt m [] h = h
  poll_inner-lt m (chunk c ∷ es) h = omega arith
  poll_inner-lt m (trailers ∷ es) h = h
  poll_inner-lt m (failed x ∷ es) h = h
  poll_inner-lt m (pending ∷ es) h = h

  pub poll_times-IsMetered :
      (n : ℕ) (m : MeteredBody O)
      → m.bytes < u64_mod
      → IsMetered n m (poll_times observe n m).0 (poll_times observe n m).1
  unfolding poll_times
  poll_times-IsMetered zero m h = IsMetered-none m h
  poll_times-IsMetered (suc n) m h =
      IsMetered-suc n m.inner m _ _ refl h
        (poll_times-IsMetered n (poll_inner observe m m.inner).0 (poll_inner-lt m m.inner h))

  -- A body that was metered, polled `n` times and dropped, twice if that were possible.
  pub record IsReported (n : ℕ) (inner : List Event) (exact : Option ℕ) (observer : Option O)
      : Type 0 where
    pub polled : MeteredBody O
    pub given : List (Option Event)
    pub polls : poll_times observe n (metered observe inner exact observer) ≡ (polled, given)
    pub passed_on : given ≡ unmetered n inner
    pub seen : polled.observer ≡ observed_all observer (take n inner)
    pub bytes : ℕ
    pub counted : bytes ≡ length (data_of (take n inner)) % u64_mod
    pub reported :
        (drop_body polled).1 ≡ some (bytes, not (ltb (length inner) n || is_exactly exact bytes))
    pub once : (drop_body (drop_body polled).0).1 ≡ none

  -- The meter passes a body on as it is: a client is given exactly what the body underneath gives.
  -- The observer has seen the data frames in their order. When the meter is dropped it reports once,
  -- and not again: the bytes of the data that was passed on, modulo 2^64, and an abort exactly if
  -- neither the end of the body was polled nor the announced size was reached.
  pub poll_times-IsReported :
      (n : ℕ) (inner : List Event) (exact : Option ℕ) (observer : Option O)
      → IsReported n inner exact observer
  unfolding metered drop_body is_complete
  poll_times-IsReported n inner exact observer =
      let m = metered observe inner exact observer in
      let k = poll_times-IsMetered n m (omega arith) in
      record {
        polled = (poll_times observe n m).0;
        given = (poll_times observe n m).1;
        polls = refl;
        passed_on = k.passed_on;
        seen = k.seen;
        bytes = (poll_times observe n m).0.bytes;
        counted = k.counted ∙ omega arith;
        reported = rw (k.report_due, k.ended, k.expected) refl;
        once = rw k.report_due refl;
      }
