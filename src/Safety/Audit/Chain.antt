-- ===== src/Safety/Audit/Chain.antt =====
-- The hash chain of luv_safety.hpp's audit log: what is appended is accepted again, also
-- in front of a failed write, and an event of an accepted log is exchanged only by a collision of the digest.
use luv_flicker.Base.{
  ℕ, ◌+◌, ◌%◌, ◌^◌, ◌<◌, ◌≤◌, ◌≡◌, ◌↔◌, ◌⊎◌, inl, inr, ℤ, none, pos, leb_ℤ, Bool, true, false, some,
  List, [], ◌∷◌, ◌++◌, arith, refl, sym, ap, ◌∙◌, length, Bool-cases,
}
use native.Mathlib.Decide.{ℕ_discrete}
use luv_flicker.Safety.Audit.{
  Content, AuditEvent, DurableAuditLog, Written, whole, failed, valid_event, validate_records,
  next_event, write_all, flush, append, verify_log_integrity, open_log, event_size,
}

ℤ-discrete : Discrete ℤ
ℤ-discrete = hlevel ℕ_discrete

Content-discrete : Discrete Content
Content-discrete = hlevel (ℕ_discrete, ℤ-discrete)

module _ (Hash : Type 0) (sha256 : Hash → Content → Hash) (same : Hash → Hash → Bool)
    (same_iff : (a b : Hash) → (same a b ≡ true) ↔ (a ≡ b)) where
  validate_records-append :
      (es : List (AuditEvent Hash)) (e : AuditEvent Hash) (n k : ℕ) (h t : Hash)
      → validate_records Hash sha256 same n h es ≡ some (k, t)
      → e.content.sequence ≡ k
      → e.previous_hash ≡ t
      → e.hash ≡ sha256 e.previous_hash e.content
      → validate_records Hash sha256 same n h (es ++ (e ∷ [])) ≡ some (k + 1, e.hash)
  unfolding validate_records valid_event
  validate_records-append [] e n k h t v s p d =
      ground (arith, same_iff e.previous_hash h, same_iff (sha256 e.previous_hash e.content) e.hash)
  validate_records-append (e' ∷ es) e n k h t v s p d =
      ground (arith, validate_records-append es e (n + 1) k e'.hash t)

  -- What an accepted event is.
  validate_records-head :
      (e : AuditEvent Hash) (es : List (AuditEvent Hash)) (n k : ℕ) (h t : Hash)
      → validate_records Hash sha256 same n h (e ∷ es) ≡ some (k, t)
      → (e.previous_hash ≡ h)
        × (sha256 h e.content ≡ e.hash)
        × (validate_records Hash sha256 same (n + 1) e.hash es ≡ some (k, t))
  unfolding validate_records valid_event
  validate_records-head e es n k h t v =
      ground (arith, same_iff e.previous_hash h, same_iff (sha256 e.previous_hash e.content) e.hash)

  validate_records-length :
      (es : List (AuditEvent Hash)) (n k : ℕ) (h t : Hash)
      → validate_records Hash sha256 same n h es ≡ some (k, t)
      → k ≡ n + length es
  unfolding validate_records
  validate_records-length [] n k h t v = ground arith
  validate_records-length (e ∷ es) n k h t v =
      ground (arith, validate_records-length es (n + 1) k e.hash t)

  -- The events in front of the first failed write are a valid chain, and where no write has failed,
  -- one that ends where the log stands.
  pub record IsChained (zero_hash : Hash) (l : DurableAuditLog Hash) : Type 0 where
    pub prefix : ¬ (validate_records Hash sha256 same 0 zero_hash l.file ≡ none)
    pub chained :
        l.torn ≡ 0
        → verify_log_integrity Hash sha256 same zero_hash l.file 0 ≡ some (l.sequence, l.tail)

  -- Where `same` tells equal hashes from different ones: every `append`, however the writes of its event end and whatever
  -- the sync answers, keeps the events in front of the first failed write a valid chain, which ends at the log's
  -- sequence number and tail while no byte of a failed write is in the file, if the successor of that number fits 64
  -- bits.
  pub append-IsChained :
      (zero_hash : Hash) (l : DurableAuditLog Hash) (content : Content) (written : Written)
      (synced : Bool)
      → IsChained zero_hash l
      → l.sequence + 1 < 2 ^ 64
      → IsChained zero_hash (append Hash sha256 same l content written synced).0
  unfolding append write_all verify_log_integrity flush
  append-IsChained zero_hash l content (failed bytes) synced v fits = record {
    prefix = λ z. ground (arith, v.prefix);
    chained = λ z. ground (arith, v.chained);
  }
  append-IsChained zero_hash l content whole synced v fits = elim (ℕ_discrete l.torn 0) [
    | yes clean ↦
        let e = next_event Hash sha256 same l content in
        let grown =
          validate_records-append l.file e 0 l.sequence zero_hash l.tail
            (ground (arith, v.chained clean)) (unfold next_event in refl)
            (unfold next_event in refl) (unfold next_event in refl) in
        record {
          prefix = λ z. ground (arith, grown, v.prefix);
          chained = λ z. ground (arith, grown, v.chained clean);
        }
    | no torn ↦ record {
      prefix = λ z. ground (arith, v.prefix);
      chained = λ z. absurd (ground (arith, torn));
    }
  ]

  -- When the writes of an event fail behind some of its bytes, `append` returns false, and leaves a file
  -- without bytes of an earlier failure as one that neither `open` nor `verify_log_integrity` accepts.
  pub append_torn-unreadable :
      (zero_hash : Hash) (l other : DurableAuditLog Hash) (content : Content) (bytes interval : ℕ)
      (synced : Bool)
      → l.torn ≡ 0
      → l.is_open ≡ true
      → 0 < content.order_id
      → leb_ℤ content.quantity (pos 0) ≡ false
      → content.side ≤ 1
      → 0 < bytes
      → bytes < event_size
      → let (l', ok) = append Hash sha256 same l content (failed bytes) synced in
        (ok ≡ false)
        × (verify_log_integrity Hash sha256 same zero_hash l'.file (l'.torn % event_size) ≡ none)
        × ((open_log Hash sha256 same zero_hash other interval l'.file (l'.torn % event_size)).1
            ≡ false)
  unfolding append write_all verify_log_integrity open_log
  append_torn-unreadable zero_hash l other content bytes interval synced c o i q s some_bytes part =
      (ground arith, ground arith, ground arith)

  -- The two logs have different events of one digest at the same place.
  pub data Collide : List (AuditEvent Hash) → List (AuditEvent Hash) → Type 0 where
    here :
        (e e' : AuditEvent Hash) (es es' : List (AuditEvent Hash))
        → ¬ (e ≡ e')
        → sha256 e.previous_hash e.content ≡ sha256 e'.previous_hash e'.content
        → Collide (e ∷ es) (e' ∷ es')
    behind :
        (e e' : AuditEvent Hash) (es es' : List (AuditEvent Hash))
        → Collide es es'
        → Collide (e ∷ es) (e' ∷ es')

  -- Events of one hash are the same, or their digests collide.
  same_event :
      (e e' : AuditEvent Hash) (es es' : List (AuditEvent Hash))
      → sha256 e.previous_hash e.content ≡ e.hash
      → sha256 e'.previous_hash e'.content ≡ e'.hash
      → e.hash ≡ e'.hash
      → (e ≡ e') ⊎ Collide (e ∷ es) (e' ∷ es')
  same_event e e' es es' d d' hashes = elim (Bool-cases (same e.previous_hash e'.previous_hash)) [
    | inl p ↦ elim (Content-discrete e.content e'.content) [
      | yes c ↦ inl (let q = (same_iff e.previous_hash e'.previous_hash).0 p in cc)
      | no n ↦
          inr (Collide.here e e' es es' (λ q. n (ap AuditEvent.content q)) (d ∙ hashes ∙ sym d'))
    ]
    | inr p ↦ inr (
        Collide.here e e' es es'
          (λ q.
            ground (
              arith,
              (same_iff e.previous_hash e'.previous_hash).1 (ap AuditEvent.previous_hash q),
            ))
          (d ∙ hashes ∙ sym d'))
  ]

  chain_back :
      (es es' : List (AuditEvent Hash)) (n k : ℕ) (h h' t : Hash)
      → validate_records Hash sha256 same n h es ≡ some (k, t)
      → validate_records Hash sha256 same n h' es' ≡ some (k, t)
      → length es ≡ length es'
      → ((es ≡ es') × (h ≡ h')) ⊎ Collide es es'
  unfolding validate_records
  chain_back [] [] n k h h' t v v' l = inl (ground arith)
  chain_back [] (e' ∷ es') n k h h' t v v' l = absurd (omega arith)
  chain_back (e ∷ es) [] n k h h' t v v' l = absurd (omega arith)
  chain_back (e ∷ es) (e' ∷ es') n k h h' t v v' l =
      let (p, d, r) = validate_records-head e es n k h t v in
      let (p', d', r') = validate_records-head e' es' n k h' t v' in
      elim (chain_back es es' (n + 1) k e.hash e'.hash t r r' (omega arith)) [
        | inr c ↦ inr (Collide.behind e e' es es' c)
        | inl (rest, hashes) ↦ elim (same_event e e' es es' (rw p d) (rw p' d') hashes) [
          | inr c ↦ inr c
          | inl q ↦ inl (cc, sym p ∙ ap AuditEvent.previous_hash q ∙ p')
        ]
      ]

  -- Where `same` tells equal hashes from different ones: two logs that pass `verify_log_integrity` with the same number of
  -- events and the same root hash are the same log, event for event, or at one place they have different events of the
  -- same digest.
  pub verify_log_integrity_unique :
      (zero_hash : Hash) (es es' : List (AuditEvent Hash)) (rest rest' k : ℕ) (t : Hash)
      → verify_log_integrity Hash sha256 same zero_hash es rest ≡ some (k, t)
      → verify_log_integrity Hash sha256 same zero_hash es' rest' ≡ some (k, t)
      → (es ≡ es') ⊎ Collide es es'
  unfolding verify_log_integrity
  verify_log_integrity_unique zero_hash es es' rest rest' k t v v' =
      let w : validate_records Hash sha256 same 0 zero_hash es ≡ some (k, t) = ground (arith, v) in
      let w' : validate_records Hash sha256 same 0 zero_hash es' ≡ some (k, t) =
        ground (arith, v') in
      let long : length es ≡ length es' = omega (
        arith,
        validate_records-length es 0 k zero_hash t w,
        validate_records-length es' 0 k zero_hash t w',
      ) in
      elim (chain_back es es' 0 k zero_hash zero_hash t w w' long) [
        | inl (all, start) ↦ inl all
        | inr c ↦ inr c
      ]
