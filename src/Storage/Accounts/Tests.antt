-- ===== src/Storage/Accounts/Tests.antt =====
-- Runs of the methods on `account`, and their theorems at concrete input.
use signal2sip.Base.{◌≡◌, refl, List, [], ◌∷◌, Bytes, codes}
use signal2sip.Storage.Records.{AccountSummary}
use signal2sip.Storage.Sample.{sample}
use signal2sip.Storage.Accounts.{summaries, insert_summary, summary_of, list_all_accounts}

names : List AccountSummary → List Bytes
names [] = []
names (s ∷ rest) = s.account_name ∷ names rest

-- `ORDER BY account_name`
ordered : names (list_all_accounts sample) ≡ codes "alt" ∷ codes "main" ∷ []
unfolding names list_all_accounts summaries insert_summary summary_of
ordered = refl
