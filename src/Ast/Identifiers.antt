-- ===== src/Ast/Identifiers.antt =====
-- vyper/ast/identifiers.py
use Prim.Native.String.{String}
use Prim.Native.Char.{Char, code}
use vysvm.Common.{List, Bool, [], ◌∷◌, ◌++◌, true, false, ◌&&◌, ◌||◌, not, leb, ◌==◌}
use vysvm.Common.Errors.{Result, unless, structure_exception, ◌>>◌}
use vysvm.Common.Eq.{str_eq}
use vysvm.Common.Text.{lower}

unfoldable pub one_of_keywords : List String → String → Bool
one_of_keywords [] s = false
one_of_keywords (t ∷ ts) s = str_eq s t || one_of_keywords ts s

-- In lower case.
unfoldable pub python_reserved_keywords : List String
python_reserved_keywords =
    "false" ∷ "none" ∷ "true" ∷ "and" ∷ "as" ∷ "assert" ∷ "async" ∷ "await" ∷ "break" ∷ "class"
    ∷ "continue" ∷ "def" ∷ "del" ∷ "elif" ∷ "else" ∷ "except" ∷ "finally" ∷ "for" ∷ "from"
    ∷ "global" ∷ "if" ∷ "import" ∷ "in" ∷ "is" ∷ "lambda" ∷ "nonlocal" ∷ "not" ∷ "or" ∷ "pass"
    ∷ "raise" ∷ "return" ∷ "try" ∷ "while" ∷ "with" ∷ "yield" ∷ []

-- Adjacent literals of the source without a comma between them are one text.
unfoldable pub reserved_keywords : List String
reserved_keywords =
    python_reserved_keywords
    ++ ("public" ∷ "external" ∷ "nonpayable" ∷ "constant" ∷ "immutable" ∷ "transient" ∷ "internal"
        ∷ "payable" ∷ "nonreentrant" ∷ "interface" ∷ "struct" ∷ "event" ∷ "enum" ∷ "flagunreachable"
        ∷ "init" ∷ "_init_" ∷ "___init___" ∷ "____init____" ∷ "default" ∷ "_default_"
        ∷ "___default___" ∷ "____default____" ∷ "range" ∷ "indexed" ∷ "ether" ∷ "wei" ∷ "finney"
        ∷ "szabo" ∷ "shannon" ∷ "lovelace" ∷ "ada" ∷ "babbage" ∷ "gwei" ∷ "kwei" ∷ "mwei" ∷ "twei"
        ∷ "pwei" ∷ "zero_address" ∷ "empty_bytes32" ∷ "max_int128" ∷ "min_int128" ∷ "max_decimal"
        ∷ "min_decimal" ∷ "max_uint256" ∷ "zero_wei" ∷ [])

unfoldable pub is_letter : Char → Bool
is_letter c =
    (leb b'a' (code c) && leb (code c) b'z')
    || (leb b'A' (code c) && leb (code c) b'Z')
    || code c == b'_'

unfoldable pub is_letter_or_digit : Char → Bool
is_letter_or_digit c = is_letter c || (leb b'0' (code c) && leb (code c) b'9')

-- The rest of a match: `$` also stands before a line feed at the end.
unfoldable pub matches_rest : String → Bool
matches_rest String.[] = true
matches_rest (String.◌∷◌ c s) =
    let rest = matches_rest s in (is_letter_or_digit c && rest) || (code c == 10 && str_eq s "")

unfoldable pub matches : String → Bool
matches String.[] = false
matches (String.◌∷◌ c s) = is_letter c && matches_rest s

unfoldable pub validate_identifier : String → Result (Unit {0})
validate_identifier attr =
    unless structure_exception (matches attr)
    >> unless structure_exception (not (one_of_keywords reserved_keywords (lower attr)))
