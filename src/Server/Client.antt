-- ===== src/Server/Client.antt =====
-- src/server/Client.{h,cpp}, Server.cpp: a client with its transaction, and its replies. What is
-- handed to send() is kept in `replies`, in order.
use print3d.Prelude.{ℕ, Bool, true, Option, none, some, List, [], ◌∷◌, ◌++◌, map}
use print3d.Prelude.Text.{Bytes}
use print3d.Ipc.Codes.{reply_ok, reply_error}
use print3d.Ipc.Command.{Arg, blob, construct_cmd}
use print3d.Driver.State.{Driver}

pub record Transaction : Type 0 where
  pub buffer : Bytes
  pub active : Bool
  pub cancelled : Bool

pub record Client : Type 0 where
  pub buffer : Bytes
  pub transaction : Transaction
  pub replies : List Bytes

-- The server while it runs a command: the client that sent it, the other clients, the driver.
pub record Scene : Type 0 where
  pub client : Client
  pub others : List Client
  pub driver : Option Driver

abbrev pub set_transaction : Scene → Transaction → Scene
set_transaction s t = record s { client = record s.client { transaction = t } }

abbrev pub set_driver : Scene → Driver → Scene
set_driver s d = record s { driver = some d }

unfoldable pub send_data : Scene → Bytes → Scene
send_data s cmd = record s { client = record s.client { replies = s.client.replies ++ (cmd ∷ []) } }

-- A command that could not be built is not sent.
unfoldable pub send_built : Scene → Option Bytes → Scene
unfolding send_data
send_built s none = s
send_built s (some cmd) = send_data s cmd

abbrev pub message_args : Option Bytes → List Arg
message_args none = []
message_args (some m) = blob m ∷ []

unfoldable pub send_reply : Scene → ℕ → Option Bytes → Scene
unfolding send_built construct_cmd
send_reply s code message = send_built s (construct_cmd code (message_args message))

unfoldable pub send_ok : Scene → Scene
unfolding send_reply
send_ok s = send_reply s reply_ok none

unfoldable pub send_error : Scene → Bytes → Scene
unfolding send_reply
send_error s message = send_reply s reply_error (some message)

abbrev pub cancel : Client → Client
cancel c = record c { transaction = record c.transaction { cancelled = true } }

-- `cancelAllTransactions(&client)`
unfoldable pub cancel_all_transactions : Scene → Scene
cancel_all_transactions s = record s { others = map cancel s.others }
