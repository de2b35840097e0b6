-- ===== src/Providers/Cache.antt =====
-- src/stock_daily_report/providers/service.py: `load` and `store` of RawResponseCache,
-- and MarketDataService.commit_staged_cache_writes.
--
-- The files are a map from names to contents. `path_of` is a parameter: it stands for the SHA-256
-- digest of the key's JSON, and nothing is asked of it. JSON is written and read back unchanged. Times
-- stand as whole ticks, and a provider's name and a code as numbers.
pub mod Sound
use stock_daily_report.Prelude.{
  ℕ, ◌+◌, Bool, true, false, ◌&&◌, ◌||◌, List, [], ◌∷◌, Option, none, some, ltb, ◌==◌,
  if◌then◌else◌,
}
use stock_daily_report.Bars.{Date}
use stock_daily_report.Texts.{Text}
use stock_daily_report.Providers.Redact.{Value, redact}

pub record CacheKey : Type 0 where
  pub provider : ℕ
  pub code : ℕ
  pub start : Option Date
  pub end : Option Date

abbrev pub same_date : Option Date → Option Date → Bool
same_date none none = true
same_date (some a) (some b) = a == b
same_date _ _ = false

-- `document["key"] == self._key(...)`
unfoldable pub same_key : CacheKey → CacheKey → Bool
same_key a b =
    ((a.provider == b.provider) && (a.code == b.code))
    && (same_date a.start b.start && same_date a.end b.end)

pub record Document : Type 0 where
  pub cached_at : ℕ
  pub key : CacheKey
  pub response : Value

-- What a file holds: a document, or anything from which `load` cannot take one.
pub data Content : Type 0 where
  unreadable : Content
  document : Document → Content

abbrev pub Files : Type 0
Files = ℕ → Option Content

unfoldable pub write : ℕ → Option Content → Files → Files
write path content files q = if q == path then content else files q

-- `age < 0 or age > ttl`
unfoldable pub is_expired : ℕ → ℕ → Document → Bool
is_expired ttl now d = ltb now d.cached_at || ltb (d.cached_at + ttl) now

module _ (path_of : CacheKey → ℕ) (ttl : ℕ) where
  -- The files after `load` unlinks the entry.
  unfoldable pub dropped : CacheKey → Files → Option Value × Files
  dropped key files = (none, write (path_of key) none files)

  unfoldable pub load_document : ℕ → CacheKey → Document → Files → Option Value × Files
  load_document now key d files =
      if same_key d.key key
      then (if is_expired ttl now d then dropped key files else (some d.response, files))
      else dropped key files

  -- `load`: what it returns, and the files after it.
  unfoldable pub load : ℕ → CacheKey → Files → Option Value × Files
  load now key files = elim (files (path_of key)) [
    | none ↦ dropped key files
    | some content ↦ elim content [
      | unreadable ↦ dropped key files
      | document d ↦ load_document now key d files
    ]
  ]

module _ (path_of : CacheKey → ℕ) (lower : Text → Text) (replace : Text → Text → Text)
    (secrets : List Text) where
  -- `store`; where the response is not serialized it raises and writes nothing.
  unfoldable pub store : ℕ → CacheKey → Value → Files → Files
  store now key response files = elim (redact lower replace secrets response) [
    | none ↦ files
    | some clean ↦
        write (path_of key)
          (some (document (record { cached_at = now; key = key; response = clean }))) files
  ]

-- A deferred response, with the time at which the commit writes it.
pub record StagedWrite : Type 0 where
  pub now : ℕ
  pub key : CacheKey
  pub response : Value

module _ (path_of : CacheKey → ℕ) (lower : Text → Text) (replace : Text → Text → Text)
    (secrets : List Text) where
  -- The loop of `commit_staged_cache_writes`; `none` is that it raises.
  unfoldable pub write_staged : List StagedWrite → Files → Option Files
  write_staged [] files = some files
  write_staged (w ∷ writes) files = elim (redact lower replace secrets w.response) [
    | none ↦ none
    | some clean ↦
        write_staged writes (store path_of lower replace secrets w.now w.key w.response files)
  ]

  -- `commit_staged_cache_writes`: where the loop raises, the files are restored.
  unfoldable pub commit_staged_cache_writes : List StagedWrite → Files → Files
  commit_staged_cache_writes writes files = elim (write_staged writes files) [
    | none ↦ files
    | some written ↦ written
  ]

-- What happens to a cache: uses of it by any process, and anything else that is put in the place of a
-- file, such as what a damage, another program or a recovery after a crash leaves there.
pub data CacheUse : Type 0 where
  stores : ℕ → CacheKey → Value → CacheUse
  commits : List StagedWrite → CacheUse
  loads : ℕ → CacheKey → CacheUse
  overwrites : ℕ → Option Content → CacheUse

module _ (path_of : CacheKey → ℕ) (ttl : ℕ) (lower : Text → Text) (replace : Text → Text → Text)
    (secrets : List Text) where
  -- The files after the uses, the latest first.
  unfoldable pub files_after : List CacheUse → Files
  files_after [] = λ path. none
  files_after (stores now key response ∷ uses) =
      store path_of lower replace secrets now key response (files_after uses)
  files_after (commits writes ∷ uses) =
      commit_staged_cache_writes path_of lower replace secrets writes (files_after uses)
  files_after (loads now key ∷ uses) = (load path_of ttl now key (files_after uses)).1
  files_after (overwrites path content ∷ uses) = write path content (files_after uses)
