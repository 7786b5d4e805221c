-- ===== src/Capidrv/Safety/Answers.antt =====
-- The answers of linux/drivers/isdn/capi/capidrv.c to indications and the links.
use capi4linux.Prelude.{ℕ, ◌≡◌, true}
use capi4linux.Cmsg.Struct.{Cmsg}
use capi4linux.Cmsg.Fill.{capi_cmsg_answer}
use capi4linux.Capidrv.Card.{Card}
use capi4linux.Capidrv.Buffer.{Answered}
use capi4linux.Capidrv.Links.{Good, Steady}
use capi4linux.Capidrv.Links.Writes.{send_message-Steady}
use capi4linux.Capidrv.Handlers.{is, send_answer}

pub send_answer-Steady :
    (command : ℕ) (c : Cmsg) (s : Card)
    → Answered command
    → is command 0x82 c ≡ true
    → Good s
    → Steady s (send_answer c s)
send_answer-Steady command c s answered h g =
    send_message-Steady s g (capi_cmsg_answer c) (answered c h)
