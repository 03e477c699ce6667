-- ===== src/Server/Shown.antt =====
-- main.go, broadcastLoop: the rows that a client gets are judged by the rules of that moment.
use porthawk.Prelude.{◌≡◌, Option, none, some, All}
use porthawk.Go.Text.{Unicode, text_eq}
use porthawk.Conn.{Conn}
use porthawk.LastOwners.{LastOwners}
use porthawk.Rules.{Rules}
use porthawk.Rules.Match.{apply}
use porthawk.Ghosts.{Ghosts}
use porthawk.Traffic.Tcp
use porthawk.Server.Tick.{Snapshot}

module _ (u : Unicode) (r : Rules) where
  -- The row is as the rules leave it: its aliases and its flag.
  abbrev pub IsJudged : Conn → Type 0
  IsJudged c = apply u r c ≡ c

abbrev JudgedIfSent : Unicode → Rules → Option Snapshot → Type 0
JudgedIfSent u r none = Unit
JudgedIfSent u r (some s) = All (IsJudged u r) s.conns
