-- ===== src/Text.antt =====
-- Python's `str` methods, as far as the observer uses them, on texts of code points.
pub mod Laws
use Prim.Native.Nat.{zero, suc}
use Prim.Native.Char.{Char, code}
use Prim.Native.String.{[], ◌∷◌, ◌++◌}
use celery_diagnostics_obser.Prelude.{
  ℕ, ◌+◌, ◌-◌, String, Bool, true, false, ◌&&◌, ◌||◌, ◌==◌, leb, Option, none, some, if◌then◌else◌,
  str_eq,
}

-- str.isspace() of a code point
abbrev pub is_space_code : ℕ → Bool
is_space_code c =
    (leb 9 c && leb c 13)
    || (leb 28 c && leb c 32)
    || c == 0x85
    || c == 0xA0
    || c == 0x1680
    || (leb 0x2000 c && leb c 0x200A)
    || (leb 0x2028 c && leb c 0x2029)
    || c == 0x202F
    || c == 0x205F
    || c == 0x3000

unfoldable pub is_space : Char → Bool
is_space c = is_space_code (code c)

unfoldable pub lstrip : String → String
lstrip [] = []
lstrip (c ∷ s) = if is_space c then lstrip s else c ∷ s

-- a space is kept only before something else
unfoldable pub before_end : Char → String → String
before_end c [] = if is_space c then [] else c ∷ []
before_end c (d ∷ s) = c ∷ d ∷ s

unfoldable pub rstrip : String → String
unfolding before_end
rstrip [] = []
rstrip (c ∷ s) = before_end c (rstrip s)

unfoldable pub strip : String → String
unfolding lstrip rstrip is_space
strip s = rstrip (lstrip s)

-- s[:n]
unfoldable pub take_text : ℕ → String → String
take_text zero s = []
take_text (suc n) [] = []
take_text (suc n) (c ∷ s) = c ∷ take_text n s

-- len(s)
unfoldable pub length_text : String → ℕ
length_text [] = 0
length_text (c ∷ s) = suc (length_text s)

-- s.replace("\x00", "")
unfoldable pub without_nul : String → String
without_nul [] = []
without_nul (c ∷ s) = let rest = without_nul s in if code c == 0 then rest else c ∷ rest

-- s.replace("_", "-")
unfoldable pub dashed : String → String
dashed [] = []
dashed (c ∷ s) = (if code c == b'_' then "-" else c) ∷ dashed s

nth_char : ℕ → String → Char → Char
nth_char n [] d = d
nth_char zero (c ∷ s) d = c
nth_char (suc n) (c ∷ s) d = nth_char n s d

lower_char : (Char → String) → Char → String
unfolding nth_char
lower_char wide c =
    if leb b'A' (code c) && leb (code c) b'Z'
    then nth_char (code c - b'A') "abcdefghijklmnopqrstuvwxyz" c ∷ []
    else if leb 128 (code c)
    then wide c
    else c ∷ []

-- s.lower(); `wide` gives what a code point from 128 on becomes
unfoldable pub lower : (Char → String) → String → String
unfolding lower_char
lower wide [] = []
lower wide (c ∷ s) = lower_char wide c ++ lower wide s

upper_char : (Char → String) → Char → String
unfolding nth_char
upper_char wide c =
    if leb b'a' (code c) && leb (code c) b'z'
    then nth_char (code c - b'a') "ABCDEFGHIJKLMNOPQRSTUVWXYZ" c ∷ []
    else if leb 128 (code c)
    then wide c
    else c ∷ []

-- s.upper(); `wide` gives what a code point from 128 on becomes
unfoldable pub upper : (Char → String) → String → String
unfolding upper_char
upper wide [] = []
upper wide (c ∷ s) = upper_char wide c ++ upper wide s

-- c in s
unfoldable pub has_char : ℕ → String → Bool
has_char n [] = false
has_char n (c ∷ s) = code c == n || has_char n s

-- s.split(":", 1)[0]
unfoldable pub before_colon : String → String
before_colon [] = []
before_colon (c ∷ s) = let rest = before_colon s in if code c == b':' then [] else c ∷ rest

-- "." in s
unfoldable pub has_dot : String → Bool
has_dot [] = false
has_dot (c ∷ s) = code c == b'.' || has_dot s

cons_before : Char → String × Bool × String → String × Bool × String
cons_before c (before, hit, after) = (c ∷ before, hit, after)

-- s.partition("."): what stands before the first dot, whether there is one, and what follows it
unfoldable pub partition_dot : String → String × Bool × String
unfolding cons_before
partition_dot [] = ([], false, [])
partition_dot (c ∷ s) = if code c == b'.' then ([], true, s) else cons_before c (partition_dot s)

-- s.rsplit(".", 1)[-1]: what follows the last dot, or all
unfoldable pub last_part : String → String
last_part [] = []
last_part (c ∷ s) = if has_dot s then last_part s else if code c == b'.' then s else c ∷ s

-- what stands before the last dot: s.rpartition(".")[0]
unfoldable pub before_last_dot : String → String
before_last_dot [] = []
before_last_dot (c ∷ s) = if has_dot s then c ∷ before_last_dot s else []

-- s.startswith(prefix)
unfoldable pub starts_with : String → String → Bool
starts_with [] s = true
starts_with (p ∷ prefix) [] = false
starts_with (p ∷ prefix) (c ∷ s) = code p == code c && starts_with prefix s

-- s.replace("Z", "+00:00")
unfoldable pub utc_offset : String → String
utc_offset [] = []
utc_offset (c ∷ s) = (if code c == b'Z' then "+00:00" else c ∷ []) ++ utc_offset s

-- [A-Za-z_]
unfoldable pub is_ident_start : Char → Bool
is_ident_start c =
    (leb b'A' (code c) && leb (code c) b'Z')
    || (leb b'a' (code c) && leb (code c) b'z')
    || code c == b'_'

-- [A-Za-z0-9_]
unfoldable pub is_word : Char → Bool
is_word c = is_ident_start c || (leb b'0' (code c) && leb (code c) b'9')

-- [A-Za-z0-9_.]
unfoldable pub is_dotted : Char → Bool
is_dotted c = is_word c || code c == b'.'

cons_run : Char → String × String → String × String
cons_run c (run, rest) = (c ∷ run, rest)

-- the longest prefix of dotted names, and what follows it
unfoldable pub dotted_run : String → String × String
unfolding cons_run
dotted_run [] = ([], [])
dotted_run (c ∷ s) = if is_dotted c then cons_run c (dotted_run s) else ([], c ∷ s)

-- s.endswith(suffix)
unfoldable pub ends_with : String → String → Bool
ends_with suffix [] = str_eq suffix []
ends_with suffix (c ∷ s) = let rest = ends_with suffix s in str_eq suffix (c ∷ s) || rest

-- part in s
unfoldable pub has_text : String → String → Bool
unfolding starts_with
has_text part [] = str_eq part []
has_text part (c ∷ s) = let rest = has_text part s in starts_with part (c ∷ s) || rest
