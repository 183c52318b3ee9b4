-- ===== src/Web/Amounts/Tests.antt =====
-- Amounts as they are printed.
use canalis.Base.{◌≡◌, refl}
use canalis.Base.Text.{show_from}
use canalis.Application.Tasks.{parse_usdc}
use canalis.Web.Amounts.{show, atomic_to_usd}
use canalis.Web.Amounts.Printed.{parse_usdc-atomic_to_usd}

printed : atomic_to_usd 12345600 ≡ "12.3456"
unfolding atomic_to_usd show show_from
printed = refl

printed_whole : atomic_to_usd 5000000 ≡ "5"
unfolding atomic_to_usd show show_from
printed_whole = refl

printed_small : atomic_to_usd 7 ≡ "0.000007"
unfolding atomic_to_usd show show_from
printed_small = refl

parse_usdc-atomic_to_usd_example : parse_usdc (atomic_to_usd 12345600) ≡ 12345600
parse_usdc-atomic_to_usd_example = parse_usdc-atomic_to_usd 12345600
