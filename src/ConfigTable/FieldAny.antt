-- ===== src/ConfigTable/FieldAny.antt =====
-- million/include/million/proto_field_any.h: the value of a field, with the type that it has in the
-- std::variant, and its equality. Integers and floating point numbers are their bits.
use million.Prelude.{
  ℕ, ◌/◌, ◌%◌, ◌^◌, Bool, true, false, not, ◌&&◌, ◌||◌, List, [], ◌∷◌, ◌==◌, ◌+◌, ◌-◌,
}

pub data ProtoFieldAny : Type 0 where
  monostate : ProtoFieldAny
  int32 uint32 int64 uint64 : ℕ → ProtoFieldAny
  bool : Bool → ProtoFieldAny
  float double : ℕ → ProtoFieldAny
  string : List ℕ → ProtoFieldAny

-- The numbers of a std::vector<int32_t>, or the bytes of a text.
unfoldable pub numbers_eq : List ℕ → List ℕ → Bool
numbers_eq [] [] = true
numbers_eq (x ∷ xs) (y ∷ ys) = (x == y) && numbers_eq xs ys
numbers_eq _ _ = false

-- `==` of floating point numbers of 1 + e + m bits: nothing equals a NaN, and the zeros are equal.
is_nan : ℕ → ℕ → ℕ → Bool
is_nan e m a = (a / 2 ^ m % 2 ^ e == 2 ^ e - 1) && not (a % 2 ^ m == 0)

unfoldable pub float_eq : ℕ → ℕ → ℕ → ℕ → Bool
unfolding is_nan
float_eq e m a b =
    not (is_nan e m a)
    && not (is_nan e m b)
    && ((a == b) || ((a % 2 ^ (e + m) == 0) && (b % 2 ^ (e + m) == 0)))

bool_eq : Bool → Bool → Bool
bool_eq true b = b
bool_eq false b = not b

-- `==` of the variants: the types are the same and the values are equal.
unfoldable pub any_eq : ProtoFieldAny → ProtoFieldAny → Bool
unfolding numbers_eq float_eq bool_eq
any_eq monostate monostate = true
any_eq (int32 a) (int32 b) = a == b
any_eq (uint32 a) (uint32 b) = a == b
any_eq (int64 a) (int64 b) = a == b
any_eq (uint64 a) (uint64 b) = a == b
any_eq (bool a) (bool b) = bool_eq a b
any_eq (float a) (float b) = float_eq 8 23 a b
any_eq (double a) (double b) = float_eq 11 52 a b
any_eq (string a) (string b) = numbers_eq a b
any_eq _ _ = false

-- `==` of the vectors that are the keys of a composite index.
unfoldable pub all_eq : List ProtoFieldAny → List ProtoFieldAny → Bool
unfolding any_eq
all_eq [] [] = true
all_eq (x ∷ xs) (y ∷ ys) = any_eq x y && all_eq xs ys
all_eq _ _ = false
