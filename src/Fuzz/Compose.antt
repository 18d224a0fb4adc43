-- ===== src/Fuzz/Compose.antt =====
-- fuzz/fuzz_targets/compose_open.rs: a script of bytes builds a URI of nested `data:`, `slice:` and
-- `concat:` URIs beside a model of its content, opens it, and reads and seeks in both. A panic is
-- an error with its message. The `usize` index of the script passes the end of the input by a few
-- thousand at most, so that its additions are plain.
use Prim.Native.Nat.{bit_and, bit_or}
use oxideav_source.Prelude.{
  ℕ, zero, suc, ◌+◌, ◌-◌, ◌*◌, ◌/◌, ◌%◌, ◌^◌, Bool, true, false, [], ◌∷◌, ◌++◌, Bytes, codes,
  String, leb, ◌==◌, if◌then◌else◌, length, get_or, take, drop, contains, Result, ok, err,
}
use oxideav_source.Decimal.{print_u64}
use oxideav_source.Data.{hex_digit}
use oxideav_source.Source.{Run, ◌>>=◌, ◌>>◌, return, fail}
use oxideav_source.Mem.{Table}
use oxideav_source.Open.{FileSystem, open_bytes}

pub record Script : Type 0 where
  pub d : Bytes
  pub i : ℕ

-- `Script::new`
unfoldable pub new : Bytes → Script
new d = record { d = d; i = 0 }

-- `assert!`, on any state.
abbrev pub assert : {S : Type 0} → Bool → String → Run String S (Unit {0})
assert true message = return tt
assert false message = fail message

-- What the methods of the script and the leaves draw from it.
abbrev pub Draw : Type 0 → Type 0
Draw A = Run String Script A

unfoldable pub u8 : Draw ℕ
u8 sc = (ok (get_or sc.d sc.i 0), record sc { i = sc.i + 1 })

-- `from_le_bytes`
unfoldable pub u16 : Draw ℕ
unfolding u8
u16 = do lo ← u8; hi ← u8; return (lo + hi * 256)

unfoldable pub exhausted : Script → Bool
exhausted sc = leb (length sc.d) sc.i

unfoldable pub below : ℕ → Draw ℕ
unfolding u16
below n = if leb n 1 then return 0 else (do x ← u16; return (x % n))

unfoldable pub bytes : ℕ → Draw Bytes
unfolding u8
bytes zero = return []
bytes (suc n) = do b ← u8; rest ← bytes n; return (b ∷ rest)

-- `%{b:02X}` for every byte.
unfoldable pub triplets : Bytes → Bytes
unfolding hex_digit
triplets [] = []
triplets (b ∷ payload) = b'%' ∷ hex_digit (b / 16) ∷ hex_digit (b % 16) ∷ triplets payload

unfoldable pub data_uri_percent : Bytes → Bytes
unfolding triplets
data_uri_percent payload = codes "data:," ++ triplets payload

unfoldable pub alpha : Bytes
alpha = codes "ABCDEFGHIJKLMNOPQRSTUVWXYZabcdefghijklmnopqrstuvwxyz0123456789+/"

-- `ALPHA[((t >> shift) & 0x3f) as usize]`
unfoldable pub symbol : ℕ → ℕ → ℕ
unfolding alpha
symbol t shift = get_or alpha (bit_and (t / 2 ^ shift) 0x3f) 0

-- The chunks of three bytes, then the remainder.
unfoldable pub chunks : Bytes → Bytes
unfolding symbol
chunks [] = []
chunks (b0 ∷ []) = let t = b0 * 2 ^ 16 in symbol t 18 ∷ symbol t 12 ∷ b'=' ∷ b'=' ∷ []
chunks (b0 ∷ b1 ∷ []) =
    let t = bit_or (b0 * 2 ^ 16) (b1 * 2 ^ 8) in symbol t 18 ∷ symbol t 12 ∷ symbol t 6 ∷ b'=' ∷ []
chunks (b0 ∷ b1 ∷ b2 ∷ rest) =
    let t = bit_or (bit_or (b0 * 2 ^ 16) (b1 * 2 ^ 8)) b2 in
    symbol t 18 ∷ symbol t 12 ∷ symbol t 6 ∷ symbol t 0 ∷ chunks rest

unfoldable pub data_uri_base64 : Bytes → Bytes
unfolding chunks
data_uri_base64 payload = codes "data:;base64," ++ chunks payload

-- A URI, and the content that it must open to.
pub record Composition : Type 0 where
  pub uri : Bytes
  pub model : Bytes

unfoldable pub data_leaf : ℕ → Draw Composition
unfolding u8 u16 bytes data_uri_percent data_uri_base64
data_leaf max_len = do
  x ← u16
  payload ← bytes (x % (max_len + 1))
  kind ← u8
  let uri = if kind % 2 == 0 then data_uri_percent payload else data_uri_base64 payload
  return (record { uri = uri; model = payload })

-- `format!("slice:{off}+{l}!{uri}")`
unfoldable pub slice_text : ℕ → ℕ → Bytes → Bytes
slice_text off l uri = codes "slice:" ++ (print_u64 off ++ b'+' ∷ (print_u64 l ++ b'!' ∷ uri))

-- `format!("concat:{first}|{second}")`, with the model of the two.
unfoldable pub joined : Composition → Composition → Composition
joined a b = record { uri = codes "concat:" ++ (a.uri ++ b'|' ∷ b.uri); model = a.model ++ b.model }

abbrev pub is_err : {E A : Type 0} → Result E A → Bool
is_err (ok a) = false
is_err (err e) = true

-- A URI has fewer nested ones than bytes.
abbrev pub level_of : Bytes → ℕ
level_of uri = suc (length uri)

module _ {F : Type 0} (fs : FileSystem F) (table : Table) where
  -- The arms of the `match` on a composition step.
  unfoldable pub window_step : Composition → Draw Composition
  unfolding below slice_text
  window_step c = do
    let len = length c.model
    off ← below (len + 1)
    l ← below (len - off + 1)
    return (record { uri = slice_text off l c.uri; model = take l (drop off c.model) })

  unfoldable pub concat_step : Composition → Draw Composition
  unfolding u8 data_leaf joined
  concat_step c = if contains b'|' c.uri then return c else (do
    leaf ← data_leaf 512
    side ← u8
    return (if side % 2 == 0 then joined c leaf else joined leaf c))

  unfoldable pub probe : Composition → ℕ → Draw Composition
  unfolding slice_text open_bytes
  probe c x = do
    let bad = slice_text (length c.model + 1 + x) 1 c.uri
    assert (is_err (open_bytes fs table (level_of bad) bad))
        "window past the composite end must be rejected at open"
    return c

  unfoldable pub probe_step : Composition → Draw Composition
  unfolding u8 probe
  probe_step c = do x ← u8; probe c x

  unfoldable pub compose_step : Composition → Draw Composition
  unfolding u8 window_step concat_step probe_step
  compose_step c = do
    x ← u8
    if leb (x % 4) 1 then window_step c else if x % 4 == 2 then concat_step c else probe_step c

  -- The `for` loop over the steps.
  unfoldable pub compose : ℕ → Composition → Draw Composition
  unfolding compose_step
  compose zero c = return c
  compose (suc steps) c = do c' ← compose_step c; compose steps c'

  unfoldable pub build : Draw Composition
  unfolding data_leaf u8 compose
  build = do leaf ← data_leaf 1024; x ← u8; compose (x % 7) leaf
