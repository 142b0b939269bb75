-- ===== src/Reconciler/Journal/Format.antt =====
-- Bytes and their documents, as the helpers of protected_copy_codec.py and execution_journal.py read
-- and check them. `Library` holds what json, hashlib, base64 and urllib answer.
use Prim.Native.String.{count, ◌++◌}
use vuoro.Prelude.{
  ℕ, String, Bool, true, false, Option, none, some, not, ◌&&◌, ◌||◌, ◌+◌, ◌*◌, ◌/◌, leb, ltb,
  nat_eq, all, is_some,
}
use vuoro.Prelude.Eq.{◌==◌, string_keys}
use vuoro.Text.{
  starts_with, ends_with, contains, split, drop_text, all_codes, is_hex_of, is_path_part,
}
use vuoro.Reconciler.Journal.{
  Document, binding_document, pr_observation, outcome_document, public_document, key_document,
}

pub record Url : Type 0 where
  pub scheme : String
  pub hostname : Option String
  pub username : Option String
  pub password : Option String
  pub query : String
  pub fragment : String

pub record Library : Type 0 where
  -- json.dumps with sorted keys, and json.loads into one of the closed field sets
  pub canonical : Document → String
  pub parse : String → Option Document
  -- len(raw)
  pub size : String → ℕ
  -- hashlib.sha256(raw).hexdigest()
  pub sha256 : String → String
  pub b64encode : String → String
  pub b64decode : String → Option String
  pub urlsplit : String → Option Url

-- `_need` in a chain: what comes after is refused with it
infixl 5 ◌>>=◌
abbrev pub ◌>>=◌ {ℓ κ} : {A : Type ℓ} {B : Type κ} → Option A → (A → Option B) → Option B
none >>= f = none
some a >>= f = f a

abbrev pub need : Bool → Option (Unit {0})
need true = some tt
need false = none

infixl 5 ◌>>◌
abbrev pub ◌>>◌ {ℓ} : {B : Type ℓ} → Option (Unit {0}) → Option B → Option B
m >> k = m >>= λ _. k

-- a test of a value that may be missing, which then fails
abbrev pub holds {ℓ} : {A : Type ℓ} → Option A → (A → Bool) → Bool
holds none p = false
holds (some a) p = p a

-- _text
unfoldable pub is_text : String → ℕ → Bool
is_text value limit = not (value == "") && leb (count value) limit

abbrev pub safe : ℕ
safe = 9007199254740991

-- _integer
unfoldable pub is_integer : ℕ → Bool
is_integer value = leb 1 value && leb value safe

-- _digest
unfoldable pub is_digest : String → Bool
is_digest value = starts_with value "sha256:" && is_hex_of 64 (drop_text 7 value)

-- _fingerprint
unfoldable pub is_fingerprint : String → Bool
is_fingerprint value = is_hex_of 40 value || is_hex_of 64 value

-- _ARTIFACT.fullmatch
unfoldable pub is_artifact : String → Bool
is_artifact value = all is_path_part (split value 47)

abbrev pub is_control : ℕ → Bool
is_control n = leb n 32 || nat_eq n 127

-- the characters of "~^:?*[\\" and the control characters
abbrev is_refused_code : ℕ → Bool
is_refused_code n =
    is_control n
    || nat_eq n 126
    || nat_eq n 94
    || nat_eq n 58
    || nat_eq n 63
    || nat_eq n 42
    || nat_eq n 91
    || nat_eq n 92

-- _branch
unfoldable pub is_branch : String → Bool
unfolding is_text
is_branch value =
    is_text value 200
    && not (value == "@" || value == "HEAD")
    && not (starts_with value "/" || starts_with value "-")
    && not (ends_with value "/" || ends_with value ".")
    && all_codes (λ n. not (is_refused_code n)) value
    && not (contains value "..")
    && not (contains value "@{")
    && not (contains value "//")
    && all (λ part. not (starts_with part ".") && not (ends_with part ".lock")) (split value 47)

-- `_tree`, on the numbers of a document; its texts and its depth always pass
abbrev pub tree : Document → Bool
tree (binding_document b) = leb b.intent_revision safe && leb b.acceptance_revision safe
tree (pr_observation o) = leb o.pr_number safe
tree (outcome_document o) = leb o.pr_number safe
tree (public_document p) = leb p.acceptance_revision safe
tree (key_document namespace intent revision) = leb revision safe
tree _ = true

module _ (l : Library) where
  -- _hash
  unfoldable pub hash : String → String
  hash raw = "sha256:" ++ l.sha256 raw

  -- _read
  unfoldable pub read : String → ℕ → Option Document
  read raw maximum =
      need (ltb 0 (l.size raw) && leb (l.size raw) maximum)
      >> (l.parse raw >>= λ value. need (tree value && l.canonical value == raw) >> some value)

  -- `_b64` of execution_journal.py
  unfoldable pub b64 : String → ℕ → Option String
  unfolding is_text
  b64 value maximum =
      need (value == "" || is_text value (4 * ((maximum + 2) / 3)))
      >> (l.b64decode value >>= λ raw.
          need (leb (l.size raw) maximum && l.b64encode raw == value) >> some raw)

  -- the checks of an observed pull request's URL
  unfoldable pub is_url : String → Bool
  is_url value = holds (l.urlsplit value) λ url.
      (url.scheme == "https")
      && holds url.hostname (λ name. not (name == ""))
      && not (is_some url.username)
      && not (is_some url.password)
      && (url.query == "")
      && (url.fragment == "")
      && all_codes (λ n. not (is_control n)) value
