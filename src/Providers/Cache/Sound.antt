-- ===== src/Providers/Cache/Sound.antt =====
-- What the cache returns was stored for the same request, and not too long ago.
use mathlib.Core.Option.{some-injective}
use stock_daily_report.Prelude.{
  ℕ, ◌+◌, ◌≤◌, ◌≡◌, ◌⊎◌, sym, refl, subst, true, List, [], ◌∷◌, Option, some, inl, inr, arith, ◌==◌,
  Bool-cases, Option-cases,
}
use stock_daily_report.Texts.{Text}
use stock_daily_report.Providers.Redact.{Value, redact}
use stock_daily_report.Providers.Cache.{
  CacheKey, same_date, same_key, Document, Content, unreadable, document, Files, write, is_expired,
  dropped, load_document, load, store, CacheUse, stores, loads, overwrites, files_after,
  StagedWrite, write_staged, commit_staged_cache_writes, commits,
}

same_date-eq : (a b : Option ℕ) → same_date a b ≡ true → a ≡ b
same_date-eq a b h = ground arith

same_key-eq : (a b : CacheKey) → same_key a b ≡ true → a ≡ b
unfolding same_key
same_key-eq a b h = ground (arith, same_date-eq a.start b.start, same_date-eq a.end b.end)

same_key_refl : (a : CacheKey) → same_key a a ≡ true
unfolding same_key
same_key_refl a = ground arith

write-same : (p : ℕ) (c : Option Content) (files : Files) → write p c files p ≡ c
unfolding write
write-same p c files = ground arith

module _ (path_of : CacheKey → ℕ) (ttl : ℕ) where
  load_document-some :
      (now : ℕ) (key : CacheKey) (d : Document) (files : Files) {r : Value}
      → (load_document path_of ttl now key d files).0 ≡ some r
      → (d.key ≡ key) × (d.response ≡ r) × (d.cached_at ≤ now) × (now ≤ d.cached_at + ttl)
  unfolding load_document dropped is_expired
  load_document-some now key d files h =
      let fits : same_key d.key key ≡ true = ground (arith, h) in
      (same_key-eq d.key key fits, ground (arith, h), ground (arith, h), ground (arith, h))

  -- What `load` returns stood in the entry's file, under the same key, and is not expired.
  load-some :
      (now : ℕ) (key : CacheKey) (files : Files) {r : Value}
      → (load path_of ttl now key files).0 ≡ some r
      → (d : Document) × (files (path_of key) ≡ some (document d))
        × (d.key ≡ key)
        × (d.response ≡ r)
        × (d.cached_at ≤ now)
        × (now ≤ d.cached_at + ttl)
  unfolding load dropped
  load-some now key files h = elim (Option-cases (files (path_of key))) [
    | inl missing ↦ absurd (ground (arith, missing, h))
    | inr (unreadable, found) ↦ absurd (ground (arith, found, h))
    | inr (document d, found) ↦
        let (same, response, started, fresh) =
          load_document-some now key d files (rw (found, load) at h) in
        (d, found, same, response, started, fresh)
  ]

  load-fresh :
      (now : ℕ) (key : CacheKey) (d : Document) (files : Files)
      → files (path_of key) ≡ some (document d)
      → d.key ≡ key
      → d.cached_at ≤ now
      → now ≤ d.cached_at + ttl
      → load path_of ttl now key files ≡ (some d.response, files)
  unfolding load load_document is_expired
  load-fresh now key d files found same started fresh =
      let self : same_key d.key key ≡ true =
        subst (λ k. same_key d.key k ≡ true) same (same_key_refl d.key) in
      rw (found, load) (ground (arith, self, started, fresh))

  -- `load` adds no file and changes no content.
  load-keeps :
      (now : ℕ) (key : CacheKey) (files : Files) (q : ℕ) (c : Content)
      → (load path_of ttl now key files).1 q ≡ some c
      → files q ≡ some c
  unfolding load load_document dropped write
  load-keeps now key files q c h = ground arith

-- The document is one that `store` writes: at the time, under the key, of the response with its redaction.
abbrev pub IsStoreOf : (Value → Option Value) → ℕ → CacheKey → Value → Document → Type 0
IsStoreOf clean now key response d =
    (now ≡ d.cached_at) × (key ≡ d.key) × (clean response ≡ some d.response)

-- The document is one that the commit writes.
abbrev pub WasStaged : (Value → Option Value) → List StagedWrite → Document → Type 0
WasStaged clean [] d = ⊥
WasStaged clean (w ∷ writes) d = IsStoreOf clean w.now w.key w.response d ⊎ WasStaged clean writes d

-- The uses hold a store or a commit of the document, or the document was put into a file by something
-- else.
abbrev pub WasStored : (Value → Option Value) → List CacheUse → Document → Type 0
WasStored clean [] d = ⊥
WasStored clean (stores now key response ∷ uses) d =
    IsStoreOf clean now key response d ⊎ WasStored clean uses d
WasStored clean (commits writes ∷ uses) d = WasStaged clean writes d ⊎ WasStored clean uses d
WasStored clean (loads now key ∷ uses) d = WasStored clean uses d
WasStored clean (overwrites path content ∷ uses) d =
    (content ≡ some (document d)) ⊎ WasStored clean uses d

module _ (path_of : CacheKey → ℕ) (ttl : ℕ) (lower : Text → Text) (replace : Text → Text → Text)
    (secrets : List Text) where
  store-content :
      (now : ℕ) (key : CacheKey) (response : Value) (files : Files) (q : ℕ) (d : Document)
      → store path_of lower replace secrets now key response files q ≡ some (document d)
      → IsStoreOf (redact lower replace secrets) now key response d ⊎ (files q ≡ some (document d))
  unfolding store write
  store-content now key response files q d h =
      elim (Option-cases (redact lower replace secrets response)) [
        | inl refused ↦ inr (ground (arith, refused, h))
        | inr (clean, e) ↦ elim (Bool-cases (q == path_of key)) [
          | inl at ↦
              inl (ground (arith, e, at, h), ground (arith, e, at, h), ground (arith, e, at, h))
          | inr away ↦ inr (ground (arith, e, away, h))
        ]
      ]

  write_staged-content :
      (writes : List StagedWrite) (files : Files) {written : Files} (q : ℕ) (d : Document)
      → write_staged path_of lower replace secrets writes files ≡ some written
      → written q ≡ some (document d)
      → WasStaged (redact lower replace secrets) writes d ⊎ (files q ≡ some (document d))
  unfolding write_staged
  write_staged-content [] files {written} q d e h =
      let same : files ≡ written = some-injective _ _ e in
      inr (subst (λ f. f q ≡ some (document d)) (sym same) h)
  write_staged-content (w ∷ writes) files q d e h =
      elim (Option-cases (redact lower replace secrets w.response)) [
        | inl refused ↦ absurd (ground (arith, refused, e))
        | inr (clean, ok) ↦
            elim (write_staged-content writes _ q d (rw (ok, write_staged) at e) h) [
              | inl later ↦ inl (inr later)
              | inr old ↦ elim (store-content w.now w.key w.response files q d old) [
                | inl new ↦ inl (inl new)
                | inr older ↦ inr older
              ]
            ]
      ]

  commit-content :
      (writes : List StagedWrite) (files : Files) (q : ℕ) (d : Document)
      → commit_staged_cache_writes path_of lower replace secrets writes files q ≡ some (document d)
      → WasStaged (redact lower replace secrets) writes d ⊎ (files q ≡ some (document d))
  unfolding commit_staged_cache_writes
  commit-content writes files q d h =
      elim (Option-cases (write_staged path_of lower replace secrets writes files)) [
        | inl restored ↦ inr (rw (restored, commit_staged_cache_writes) at h)
        | inr (written, e) ↦
            write_staged-content writes files q d e (rw (e, commit_staged_cache_writes) at h)
      ]

  files_after-WasStored :
      (uses : List CacheUse) (q : ℕ) (d : Document)
      → files_after path_of ttl lower replace secrets uses q ≡ some (document d)
      → WasStored (redact lower replace secrets) uses d
  unfolding files_after write
  files_after-WasStored [] q d h = cc
  files_after-WasStored (stores now key response ∷ uses) q d h =
      elim (store-content now key response _ q d h) [
        | inl new ↦ inl new
        | inr old ↦ inr (files_after-WasStored uses q d old)
      ]
  files_after-WasStored (commits writes ∷ uses) q d h = elim (commit-content writes _ q d h) [
    | inl new ↦ inl new
    | inr old ↦ inr (files_after-WasStored uses q d old)
  ]
  files_after-WasStored (loads now key ∷ uses) q d h =
      files_after-WasStored uses q d (load-keeps path_of ttl now key _ q (document d) h)
  files_after-WasStored (overwrites path content ∷ uses) q d h = elim (Bool-cases (q == path)) [
    | inl at ↦ inl (ground (arith, at, h))
    | inr away ↦ inr (files_after-WasStored uses q d (ground (arith, away, h)))
  ]

  -- After any uses of the cache and any changes of its files by others, a response that is loaded comes
  -- from a document with the very same request as its key and a time of at most the time to live ago,
  -- even if keys share a file; and that document was written by a store or a commit at its time, with
  -- the redaction of the response, unless something else put this very document into a file.
  pub load-WasStored :
      (uses : List CacheUse) (now : ℕ) (key : CacheKey) (r : Value)
      → (load path_of ttl now key (files_after path_of ttl lower replace secrets uses)).0 ≡ some r
      → (d : Document) × WasStored (redact lower replace secrets) uses d
        × (d.key ≡ key)
        × (d.response ≡ r)
        × (d.cached_at ≤ now)
        × (now ≤ d.cached_at + ttl)
  load-WasStored uses now key r h =
      let (d, found, same, response, started, fresh) = load-some path_of ttl now key _ h in
      (d, files_after-WasStored uses (path_of key) d found, same, response, started, fresh)

  -- A response that is stored and loaded within the time to live comes back redacted, and the files
  -- stay as they are.
  pub load-store :
      (now later : ℕ) (key : CacheKey) (response clean : Value) (files : Files)
      → redact lower replace secrets response ≡ some clean
      → now ≤ later
      → later ≤ now + ttl
      → let stored = store path_of lower replace secrets now key response files in
        load path_of ttl later key stored ≡ (some clean, stored)
  unfolding store
  load-store now later key response clean files e started fresh =
      let doc : Document = record { cached_at = now; key = key; response = clean } in
      rw (e, store)
        (load-fresh path_of ttl later key doc (write (path_of key) (some (document doc)) files)
          (write-same (path_of key) (some (document doc)) files) refl started fresh)
