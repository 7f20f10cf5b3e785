-- ===== src/Runtime.antt =====
-- What the modelled code takes from Python's run time and does not define: the case tables of
-- Unicode, the conversions `int`, `float` and `str` of a JSON value, and arithmetic on doubles.
-- A conversion is `none` where it raises `TypeError` or `ValueError`.
use nsf_research_open_siem.Base.{ℕ, ℤ, String, Bool, Option}
use nsf_research_open_siem.Models.{Value}

pub record Runtime : Type 1 where
  -- `s.lower()` and `s.strip()`
  pub lower : String → String
  pub strip : String → String
  -- `int(v)`, `float(v)`, `str(v)`
  pub int_of : Value → Option ℤ
  pub Float : Type 0
  pub float_of : Value → Option Float
  pub str_of : Value → String
  pub float_add : Float → Float → Float
  -- `float(n)`, and `n / 4`, which no rounding touches below 2 ^ 53
  pub of_int : ℤ → Float
  pub quarters : ℕ → Float
  -- `a * b`, `min(a, b)`, `a <= b` and `round(a, n)`
  pub float_mul : Float → Float → Float
  pub float_min : Float → Float → Float
  pub float_le : Float → Float → Bool
  pub round : Float → ℕ → Float
  -- `a - b`, `a / b` and `abs(a)`
  pub float_sub : Float → Float → Float
  pub float_div : Float → Float → Float
  pub float_abs : Float → Float
  -- the literal 0.6745
  pub z_scale : Float
  -- `int(x)` of a double, which raises unless `math.isfinite(x)`
  pub float_int : Float → ℤ
  pub is_finite : Float → Bool
  -- `int(t.timestamp())` of a time in microseconds: `timestamp()` is a double, and `int` cuts its
  -- fraction off towards 1970
  pub int_timestamp : ℤ → ℤ

-- What the code takes from Python's `ipaddress`. `none` stands for a `ValueError`.
pub record Addresses : Type 1 where
  pub Address : Type 0
  pub Network : Type 0
  pub ip_address : String → Option Address
  -- `ip_network(value, strict=False)`
  pub ip_network : String → Option Network
  pub in_network : Address → Network → Bool
  pub is_private : Address → Bool
  pub is_loopback : Address → Bool
  pub is_link_local : Address → Bool
  pub is_multicast : Address → Bool
  pub is_reserved : Address → Bool
  pub is_global : Address → Bool
