-- ===== src/Live/Contracts/Tests.antt =====
-- src/app/contract_mutations.py: the invalidation of a contract at a small table.
use web_enigma.Base.{
  ℕ, ◌+◌, ◌%◌, ◌<◌, ◌==◌, ◌≡◌, refl, ◌&&◌, ◌||◌, Option, none, some, List, [], ◌∷◌, arith,
}
use web_enigma.Base.Texts.{Text, codes, text_eq}
use web_enigma.Base.TextSet.{contains}
use web_enigma.Base.Dict.{get}
use web_enigma.Base.Result.{ok}
use web_enigma.Live.Backend.{Backend, empty, get_value}
use web_enigma.Live.Controls.{is_contract_revoked}
use web_enigma.Live.Assignments.{version_of, get_assignment_version, get_shard_assignments}
use web_enigma.Live.Contracts.{TradingContract, invalidate_contract}
use web_enigma.Live.Contracts.Invalidate.{is_traded, invalidate_contract_lem}

abbrev contract : Text → Text → Option ℕ → TradingContract ℕ ℕ
contract id symbol deleted_at = record {
  id = id;
  symbol = symbol;
  strategy = codes "sma";
  strategy_params = 0;
  start_datetime = 10;
  end_datetime = 20;
  maximum_trade_size = 1;
  total_invested = 0;
  revision = 1;
  deleted_at = deleted_at;
}

abbrev contracts : List (TradingContract ℕ ℕ)
contracts =
    contract (codes "c1") (codes "aapl") (some 14) ∷ contract (codes "c2") (codes "msft") none ∷ []

abbrev first_code : Text → ℕ
first_code [] = 0
first_code (c ∷ s) = c

no_version : get_assignment_version (codes "ta") empty ≡ ok 0
unfolding get_assignment_version version_of get_value get
no_version = refl

invalidate_contract_lem_example :
    (b' : Backend) × (invalidate_contract first_code
        (some (codes "ta"))
        empty
        contracts
        (codes "c1")
        2
        15
        2
      ≡ ok (b', some (0 + 1)))
    × (get_assignment_version (codes "ta") b' ≡ ok (0 + 1))
    × ((other : Text)
        → is_contract_revoked (codes "ta") b' other
          ≡ (text_eq (codes "c1") other || is_contract_revoked (codes "ta") empty other))
    × ((shard : ℕ) (key : Text)
        → shard < 2
        → contains key (get_shard_assignments (codes "ta") b' shard)
          ≡ (is_traded key 15 contracts && first_code key % 2 == shard))
invalidate_contract_lem_example =
    invalidate_contract_lem first_code (codes "ta") empty contracts (codes "c1") 2 15 2 0
      (omega arith) no_version
