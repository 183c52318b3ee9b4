-- ===== src/Solana/Explorer.antt =====
-- packages/solana/src/finalization.ts, `solanaExplorerTransactionUrl`, with the library function
-- `encodeURIComponent` on strings of scalar values.
use Prim.Native.Char.{code}
use Prim.Native.String
use canalis.Base.{
  ℕ, zero, suc, ◌+◌, ◌/◌, ◌%◌, String, List, [], ◌∷◌, Bool, ◌&&◌, ◌||◌, ltb, leb, eqb,
  if◌then◌else◌,
}
use canalis.Base.Text.{template, is_blank}
use canalis.Base.Result.{Result, ok, err}

pub data SolanaExplorerCluster : Type 0 where
  mainnet_beta : SolanaExplorerCluster
  devnet : SolanaExplorerCluster
  testnet : SolanaExplorerCluster

abbrev cluster_name : SolanaExplorerCluster → String
cluster_name mainnet_beta = "mainnet-beta"
cluster_name devnet = "devnet"
cluster_name testnet = "testnet"

-- The UTF-8 bytes of a scalar value.
abbrev utf8 : ℕ → List ℕ
utf8 c =
    if ltb c 128
    then c ∷ []
    else if ltb c 2048
    then (192 + c / 64) ∷ (128 + c % 64) ∷ []
    else if ltb c 65536
    then (224 + c / 4096) ∷ (128 + c / 64 % 64) ∷ (128 + c % 64) ∷ []
    else (240 + c / 262144) ∷ (128 + c / 4096 % 64) ∷ (128 + c / 64 % 64) ∷ (128 + c % 64) ∷ []

abbrev hex_digits : List String
hex_digits =
    "0" ∷ "1" ∷ "2" ∷ "3" ∷ "4" ∷ "5" ∷ "6" ∷ "7" ∷ "8" ∷ "9" ∷ "A" ∷ "B" ∷ "C" ∷ "D" ∷ "E" ∷ "F"
    ∷ []

abbrev hex_at : List String → ℕ → String
hex_at [] n = ""
hex_at (d ∷ ds) zero = d
hex_at (d ∷ ds) (suc n) = hex_at ds n

abbrev escaped : List ℕ → List String
escaped [] = []
escaped (b ∷ bs) = "%" ∷ hex_at hex_digits (b / 16) ∷ hex_at hex_digits (b % 16) ∷ escaped bs

abbrev is_one_of : List ℕ → ℕ → Bool
is_one_of [] c = Bool.false
is_one_of (x ∷ xs) c = eqb x c || is_one_of xs c

-- Letters, digits and - _ . ! ~ * ' ( ) stand for themselves.
abbrev is_unreserved : ℕ → Bool
is_unreserved c =
    (leb 48 c && leb c 57)
    || (leb 65 c && leb c 90)
    || (leb 97 c && leb c 122)
    || is_one_of (45 ∷ 95 ∷ 46 ∷ 33 ∷ 126 ∷ 42 ∷ 39 ∷ 40 ∷ 41 ∷ []) c

unfoldable pub encode_uri_component : String → String
encode_uri_component String.[] = ""
encode_uri_component (String.◌∷◌ c s) =
    String.◌++◌
      (if is_unreserved (code c) then String.◌∷◌ c "" else template (escaped (utf8 (code c))))
      (encode_uri_component s)

unfoldable pub solana_explorer_transaction_url : String → SolanaExplorerCluster → Result String
unfolding encode_uri_component
solana_explorer_transaction_url signature cluster =
    if is_blank signature
    then err "transaction signature is required"
    else let base =
        template ("https://explorer.solana.com/tx/" ∷ encode_uri_component signature ∷ []) in
      elim cluster [
        | mainnet_beta ↦ ok base
        | other ↦ ok (template (base ∷ "?cluster=" ∷ cluster_name other ∷ []))
      ]
