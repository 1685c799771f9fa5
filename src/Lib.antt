-- ===== src/Lib.antt =====
-- mvChat2, a chat server: clients send JSON messages over websockets, handlers check them against a
-- PostgreSQL database, answer, and tell the other members of the conversation.
--
-- Parts and files
--   Store/       store/conversations.go, store/messages.go, store/contacts.go, store/invites.go and
--                the row types. A table is a list of rows, newest first, in the record
--                `Store.Types.Database`; a SQL statement is a function of the tables under the name of
--                its Go method (CreateDM is `create_dm`). A transaction either yields the new tables or
--                fails and leaves the old ones. Statements take the new id and the time first and the
--                database last. `Store.Visible` says of the rows what the pages are to hold.
--   Handler/     `World` is what a handler reads and changes: the database, the clock, which calls of the
--                database fail, the results of uuid.New, and what has been sent (newest first). `Monad`
--                has the actions: `need` and `some_or` are the guard clauses, `must` is a call of the
--                store whose error is answered, `call` one whose error the code looks at or drops. The
--                helpers parseUUID, requireMember, RequireAuth and broadcastToConv carry their names.
--   Conv/        handlers_conv.go and handlers_contact.go, one definition for each handler, in `Dm`,
--                `Room`, `Send`, `Change`, `Track`, `Get`, `Ask` (the other queries) and `Contact`;
--                `Shown` is how rows are told to a client, `Requests` has the client messages of
--                types.go, and `Dispatch` the switch of session.go and histories of requests. `Step` is
--                the contract: what a request may do to the database, and to whom it is allowed.
--                `Outcome` and `Reply` have one rule for each action, `Refines` shows that the handlers
--                keep the contract, and `Safety` what follows from it for messages, numbers, roles and
--                contacts.
--   RateLimit    ratelimit/ratelimit.go: the sliding window limiter; `RateLimit.Window` and
--                `RateLimit.Limit` are about one call, `RateLimit.History` about any history.
--   Invites      handlers_invite.go: the list, the revocation and the redeeming of invite codes, with the
--                statements of store/invites.go in `Store.Invites`; `Invites.Redeem` is about one redeeming,
--                `Store.Redeeming` about the life of an invite.
--   Crypto       crypto/crypto.go, and crypto/invite.go in `Crypto.InviteToken`: sealed texts and signed
--                tokens. AES-GCM, HMAC-SHA256 and base64 are parameters; `Crypto.Sealing` and
--                `Crypto.InviteToken.Verify` state what is used of them.
--   Auth         auth/auth.go and auth/validator.go: the policy, the stored form of passwords and the
--                session tokens, with Argon2 and JWT as parameters.
--   Cors         middleware/cors.go: the origins of requests; `Cors.Agree`, `Cors.Wildcard` and
--                `Cors.Decimal` are about its tests, its patterns and itoa.
--   Irido        irido/irido.go and irido/grapheme.go: message contents. `Irido.Graphemes` splits texts,
--                `Irido.Content` reads, `Irido.Preview` shortens, describes and validates. The handlers
--                do not read contents by it: their mentions come from a field of `Env`.
--   Result       Go's pairs of a value and an error.
--   Server       the switch of session.go over the messages above and those for handlers_invite.go, and
--                histories of them with the codes that new accounts redeem; `Server.Contacts` and
--                `Server.Auth` are about all of them, by the rules of `Server.Keeps`.
--   Hub          hub.go: connected sessions, whose they are, who is online and whom a message reaches;
--                `Hub.Online` is about any history, `Hub.Delivery` about one message. The handlers do not
--                use it yet: what they send is an output, and who is online a parameter.
--   Prelude      names passed on from the library, Boolean tests, lists, tables and Go maps.
--
-- How the model stands to the code
--   A UUID is its 128-bit number, with uuid.Nil as 0; a time or duration is a number of nanoseconds; a
--   text is a list of bytes; Go's int is a signed integer without bounds, so that the overflow of a
--   32-bit column is not seen. The content of a message is what the encryptor gives; the encryptor,
--   uuid.Parse, the JSON decoding of mentions and the hub's view of who is online are the fields of
--   `Handler.World.Env`. A handler sees one reading of the clock. A call of the database that fails
--   changes nothing. Requests run one after another, each on the tables that the one before left; the
--   races between two handlers are not modelled. Foreign keys and the widths of text columns are not
--   checked. Loops are over a list or a text, but for two that take fuel: `Cors.itoa_loop` has the room
--   of the buffer, 20 bytes, and `Irido.Graphemes.offsets_from` the length of the text; that both
--   suffice is among the results. A float64 is its 64 bits. The nil pointer that two queries read where
--   a row is missing is the action `stop`, the end without a reply; in the program it is a panic. Rows
--   that a query orders by equal keys come in the order of the table, newest first.
--
-- Not modelled: presence, the channels of the hub and of the sessions, the checks of session.go before
-- its switch, the messages hi, login, acc and search, accounts, the making of an invite, files, media,
-- e-mail, configuration, Redis, and start-up.
pub mod Prelude
pub mod Store
pub mod Handler
pub mod Conv
pub mod RateLimit
pub mod Hub
pub mod Result
pub mod Crypto
pub mod Auth
pub mod Invites
pub mod Server
pub mod Cors
pub mod Irido
