-- ===== src/Base/Text.antt =====
-- Go's `+` on strings, and `%d` for a number.
use Prim.Native.Nat.{ℕ, zero, suc, ◌/◌, ◌%◌}
use Prim.Native.String
use Prim.Native.String.{String}
use gitvm.Base.Tests.{if◌then◌else◌, nat_beq}

abbrev pub concat : String → String → String
concat s t = String.◌++◌ s t

digit : ℕ → String
digit zero = "0"
digit (suc zero) = "1"
digit (suc (suc zero)) = "2"
digit (suc (suc (suc zero))) = "3"
digit (suc (suc (suc (suc zero)))) = "4"
digit (suc (suc (suc (suc (suc zero))))) = "5"
digit (suc (suc (suc (suc (suc (suc zero)))))) = "6"
digit (suc (suc (suc (suc (suc (suc (suc zero))))))) = "7"
digit (suc (suc (suc (suc (suc (suc (suc (suc zero)))))))) = "8"
digit _ = "9"

-- With fuel for the digits that are left.
digits : ℕ → ℕ → String → String
digits zero n acc = acc
digits (suc fuel) n acc =
    let acc' = concat (digit (n % 10)) acc in
    let more = digits fuel (n / 10) acc' in if nat_beq (n / 10) 0 then acc' else more

unfoldable pub decimal : ℕ → String
unfolding digits digit
decimal n = digits (suc n) n ""
