-- ===== src/Conv/Requests.antt =====
-- The client messages of types.go that handlers_conv.go and handlers_contact.go handle. An absent pointer is `none`, an
-- absent text is empty; `room.desc` is the `Public` of `Desc`, if there is one.
use mv_chat.Prelude.{Bool, Option, String, Text, ℤ}

pub record MsgDm : Type 0 where
  pub user : Text
  pub conversation_id : Text
  pub favorite : Option Bool
  pub muted : Option Bool
  pub blocked : Option Bool
  pub private : Option Text
  pub disappearing_ttl : Option ℤ

pub record MsgRoom : Type 0 where
  pub id : Text
  pub action : String
  pub user : Text
  pub desc : Option Text
  pub disappearing_ttl : Option ℤ
  pub no_screenshots : Option Bool

pub record MsgSend : Type 0 where
  pub conversation_id : Text
  pub content : Option Text
  pub reply_to : ℤ
  pub view_once : Bool
  pub view_once_ttl : ℤ

-- The values of `What`; `what_unknown` is any other text.
pub data What : Type 0 where
  what_messages what_members what_receipts what_contacts what_user what_mentions what_conversation
        what_conversations what_unknown :
      What

pub record MsgGet : Type 0 where
  pub conversation_id : Text
  pub user : Text
  pub before : ℤ
  pub limit : ℤ

pub record MsgEdit : Type 0 where
  pub conversation_id : Text
  pub seq : ℤ
  pub content : Option Text

pub record MsgDelete : Type 0 where
  pub conversation_id : Text
  pub seq : ℤ
  pub for_everyone : Bool

pub record MsgReact : Type 0 where
  pub conversation_id : Text
  pub seq : ℤ
  pub emoji : Text

-- MsgClientUnsend, MsgClientRead, MsgClientRecv, MsgClientClear and MsgClientPin
pub record MsgSeq : Type 0 where
  pub conversation_id : Text
  pub seq : ℤ

pub record MsgContact : Type 0 where
  pub add : Text
  pub remove : Text
  pub user : Text
  pub nickname : Option Text

-- A conversation or contact request: a client message with the field that is set. The messages hi,
-- login, acc, search and invite are not among them; `Server.ClientMessage` has invite as well.
pub data Request : Type 0 where
  dm : Option MsgDm → Request
  room : Option MsgRoom → Request
  get : What → Option MsgGet → Request
  send : Option MsgSend → Request
  edit : Option MsgEdit → Request
  unsend : Option MsgSeq → Request
  delete : Option MsgDelete → Request
  react : Option MsgReact → Request
  typing : Option Text → Request
  read : Option MsgSeq → Request
  recv : Option MsgSeq → Request
  clear : Option MsgSeq → Request
  pin : Option MsgSeq → Request
  contact : Option MsgContact → Request
