-- ===== src/Finance/Money.antt =====
-- common/money.py and the small helpers of finance/engine.py.
use house_analysis_ai.Prelude.{Option, none, some, String, Dict, lookup, if◌then◌else◌}
use house_analysis_ai.Python.{Python, zero_decimal, nonzero, max, min}
use house_analysis_ai.Contracts.{TrackedValue}

module _ {D : Type 0} ⦃py : Python D⦄ where
  open py use {quantize}

  -- `money` of a number. (Of `None` it is `None`.)
  unfoldable pub money : D → D
  money value = quantize 2 value

  -- `money(x) or zero_decimal`
  unfoldable pub money_or_zero : D → D
  money_or_zero value = if nonzero (money value) then money value else zero_decimal

  -- `_clamp`
  abbrev pub clamp : D → D → D → D
  clamp value low high = max low (min high value)

  -- `d.get(key, default)`
  abbrev pub get_or : String → Dict D → D → D
  get_or key d default = elim (lookup key d) [ none ↦ default | some v ↦ v ]

  -- `t.value if t else None`
  abbrev pub value_of : Option (TrackedValue D) → Option D
  value_of none = none
  value_of (some t) = t.value

  -- `x if x is not None else default`
  abbrev pub default_to : D → Option D → D
  default_to default none = default
  default_to default (some v) = v
