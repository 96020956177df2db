-- ===== src/Platform.antt =====
-- What the program takes from its surroundings and this library cannot read: the parts of the
-- JavaScript run time whose result depends on the implementation, and third-party packages.
-- An instant is a number of milliseconds counted from the earliest instant that a JavaScript
-- `Date` can hold, so that every `Date` is a natural number; `epoch` is 1970-01-01.
use bfrost.Prelude.{ℕ, String, Bool, Option, some, ◌≡◌}

pub record Platform : Type 0 where
  -- `Date.parse`; `none` is NaN.
  pub date_parse : String → Option ℕ
  -- `new Date(ms).toISOString()`.
  pub to_iso : ℕ → String
  -- zod's `z.string().url()`.
  pub is_url : String → Bool
  -- `createHash('sha256').update(text).digest('hex')`, cut to its first 18 characters.
  pub sha256_prefix : String → String

-- The instant 1970-01-01T00:00:00Z.
abbrev pub epoch : ℕ
epoch = 8640000000000000

-- `toISOString` prints a text that `Date.parse` reads back.
pub record ReadsIso (p : Platform) : Type 0 where
  pub parse_iso : (t : ℕ) → p.date_parse (p.to_iso t) ≡ some t

-- A hexadecimal SHA-256 digest has 64 characters, of which 18 are kept.
pub record Digests (p : Platform) (text_length : String → ℕ) : Type 0 where
  pub digest_length : (s : String) → text_length (p.sha256_prefix s) ≡ 18
