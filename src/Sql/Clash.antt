-- ===== src/Sql/Clash.antt =====
-- What the server says to a row that breaks a constraint of db/schema.sql.
use wcwcpp_backend.Base.{
  ℕ, String, ◌<>◌, Bool, Option, none, some, List, [], ◌∷◌, not, leb, if◌then◌else◌,
}
use wcwcpp_backend.Sql.Monad.{Error, driver}
use Prim.Native.String.{count}

abbrev pub duplicate_key : Error
duplicate_key = driver "duplicate key value violates unique constraint"

abbrev pub missing_key : Error
missing_key = driver "violates foreign key constraint"

abbrev pub out_of_range : Error
out_of_range = driver "integer out of range"

abbrev pub invalid_uuid : Error
invalid_uuid = driver "invalid input syntax for type uuid"

-- `VARCHAR(n)`.
abbrev pub too_long : String → Error
too_long n = driver ("value too long for type character varying(" <> n <> ")")

abbrev pub is_longer : String → ℕ → Bool
is_longer s n = not (leb (count s) n)

-- The first constraint that is broken.
abbrev pub first_broken : List (Bool × Error) → Option Error
first_broken [] = none
first_broken ((b, e) ∷ cs) = if b then some e else first_broken cs
