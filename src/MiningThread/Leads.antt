-- ===== src/MiningThread/Leads.antt =====
-- What holds of the blockchain with which a round of `mine_blocks` goes on.
use theblockchainkiller.Base.{◌≡◌, refl, some}
use theblockchainkiller.Runtime.{ReturnCode, Outcome, ok, err, fault}
use theblockchainkiller.Blockchain.{Blockchain}
use theblockchainkiller.MiningThread.{Round, went_on, ends, undefined, round_after}

pub data Leads (P : Blockchain → Type 0) (r : Round) : Type 0 where
  leads : ((code : ReturnCode) (c : Blockchain) → went_on r ≡ some (code, c) → P c) → Leads P r

pub led_to :
    {P : Blockchain → Type 0} {r : Round}
    → Leads P r
    → (code : ReturnCode) (c : Blockchain) → went_on r ≡ some (code, c)
    → P c
led_to (leads l) = l

pub Leads-ends : {P : Blockchain → Type 0} (code : ReturnCode) → Leads P (ends code)
Leads-ends code = leads λ code' c e. cc

pub Leads-undefined : {P : Blockchain → Type 0} → Leads P undefined
Leads-undefined = leads λ code c e. cc

pub Leads-after :
    {P : Blockchain → Type 0} {A : Type 0} (o : Outcome A) {next : A → Round}
    → ((a : A) → o ≡ ok a → Leads P (next a))
    → Leads P (round_after o next)
Leads-after (ok a) k = k a refl
Leads-after (err c) k = Leads-ends c
Leads-after fault k = Leads-undefined
