-- ===== src/Print.antt =====
-- What the code uses of PrintLib, as a parameter: AsciiSPrint, and AsciiBSPrint for DEBUG records.
use edk2_adlink_ampere_altra.Base.{
  ℕ, ◌<◌, ◌≡◌, List, [], ◌∷◌, ◌++◌, ◌==◌, length, take, Bool, not, ◌&&◌, true,
}
use Prim.Native.Char.{code}
use Prim.Native.String.{String}

-- The code points of a text.
abbrev pub codes : String → List ℕ
codes String.[] = []
codes (String.◌∷◌ c s) = code c ∷ codes s

-- "\r\n" and "\n\r"
abbrev pub crlf : List ℕ
crlf = 13 ∷ 10 ∷ []

abbrev pub lfcr : List ℕ
lfcr = 10 ∷ 13 ∷ []

-- One variable argument.
pub data Arg : Type 0 where
  number : ℕ → Arg
  ascii : List ℕ → Arg
  guid : ℕ → Arg
  pointer : ℕ → Arg

-- `ascii_sprint size format args` are the characters that AsciiSPrint stores, without the NUL
-- behind them; their number is its result.
pub record PrintLib : Type 0 where
  pub ascii_sprint : ℕ → List ℕ → List Arg → List ℕ
  pub ascii_bsprint : ℕ → List ℕ → List ℕ → List ℕ

-- No conversion starts in a text.
abbrev pub is_literal : List ℕ → Bool
is_literal [] = true
is_literal (c ∷ cs) = not (c == b'%') && is_literal cs

-- The documented behaviour: the text and its NUL fit the size given, and what stands before the
-- first conversion of a format is copied.
pub record PrintsWithin (print : PrintLib) : Type 0 where
  pub sprint_fits :
      (size : ℕ) (format : List ℕ) (args : List Arg)
      → 0 < size
      → length (print.ascii_sprint size format args) < size
  pub bsprint_fits :
      (size : ℕ) (format marker : List ℕ)
      → 0 < size
      → length (print.ascii_bsprint size format marker) < size

pub record PrintsLiterally (print : PrintLib) : Type 0 where
  pub copies :
      (size : ℕ) (text format : List ℕ) (args : List Arg)
      → is_literal text ≡ true
      → length text < size
      → take (length text) (print.ascii_sprint size (text ++ format) args) ≡ text
