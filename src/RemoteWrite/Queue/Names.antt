-- ===== src/RemoteWrite/Queue/Names.antt =====
-- Queue file names: they determine their time, and none is the checkpoint's name.
use llm_metrics_exporter.Base.{
  ℕ, zero, suc, ◌≡◌, ◌≢◌, refl, sym, ap, ◌∙◌, [], ◌∷◌, ◌++◌, Bytes, arith,
}
use llm_metrics_exporter.Base.Decimal.{
  AllDigits, AllDigits-append, value, decimal, value-decimal, decimal-AllDigits,
}
use llm_metrics_exporter.Base.Separators.{Free, eq-append_sep, Free-ne-append_sep}
use llm_metrics_exporter.RemoteWrite.Queue.{zeros, padded, queue_name, state_name}

zeros-AllDigits : (n : ℕ) → AllDigits (zeros n)
zeros-AllDigits zero = tt
zeros-AllDigits (suc n) = (omega arith, omega arith, zeros-AllDigits n)

value-zeros : (n : ℕ) (ds : Bytes) → value 0 (zeros n ++ ds) ≡ value 0 ds
unfolding value
value-zeros zero ds = refl
value-zeros (suc n) ds = value-zeros n ds

-- Padding does not change the number.
pub value-padded : (ts : ℕ) → value 0 (padded ts) ≡ ts
unfolding padded
value-padded ts = value-zeros _ (decimal ts) ∙ value-decimal ts

pub padded-AllDigits : (ts : ℕ) → AllDigits (padded ts)
unfolding padded
padded-AllDigits ts =
    AllDigits-append (zeros _) (decimal ts) (zeros-AllDigits _) (decimal-AllDigits ts)

AllDigits-Free : (ds : Bytes) → AllDigits ds → Free 46 ds
AllDigits-Free [] h = tt
AllDigits-Free (d ∷ ds) h = (omega arith, AllDigits-Free ds h.2)

padded-Free : (ts : ℕ) → Free 46 (padded ts)
padded-Free ts = AllDigits-Free (padded ts) (padded-AllDigits ts)

pub queue_name-injective : (m n : ℕ) → queue_name m ≡ queue_name n → m ≡ n
unfolding queue_name
queue_name-injective m n e =
    let same = (eq-append_sep 46 (padded m) (padded n) (padded-Free m) (padded-Free n) e).0 in
    sym (value-padded m) ∙ ap (value 0) same ∙ value-padded n

pub state_name-ne-queue_name : (ts : ℕ) → state_name ≢ queue_name ts
unfolding queue_name
state_name-ne-queue_name ts e = Free-ne-append_sep 46 state_name (padded ts) _ (omega arith) e
