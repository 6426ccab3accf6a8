-- ===== src/Lib.antt =====
-- dice-server: servers for the dice game Farkle, played by two over web sockets.
--
-- The program's parts. The game master (game-master) takes a request to create or to join a game and
-- sends it through RabbitMQ (common/queue) to a game server. A game server (game/farkle) runs a lobby
-- (internal/lobby) per game, which waits for two players. A player connects by web socket with a
-- signed token (common/auth/token, internal/web). The web socket manager (game/common/client) keeps
-- the clients of each game; a player's client (internal/data/player.go) stands on one of them. When
-- both are ready the lobby starts the game (internal/logic), which reads the messages of the player
-- whose turn it is, rolls and scores the dice, and sends every change to both.
--
-- The files.
--   Prelude        shared names; Booleans and if, lists over ℕ, association lists as Go maps.
--   Connect        game/farkle/connect: requests, players, dice variants and their weights.
--   Auth           common/auth/token: `validate`, `new_game_token`. Auth.Lifetime is about these.
--                  Auth.Signing has `validate_game_token` and `sign` over the JWT library.
--   Queue          common/queue and the queues of game/farkle/connect/queue.go. Queue.Amqp is the AMQP
--                  library; Queue.Channel, Connection, Pool, Publisher, Consumer and Declaration are
--                  the files of that folder by the source's names. Connection.Ready and Life, the
--                  modules under Pool, Publisher.Once, Consumer.Order and Declaration.Apart are about
--                  these.
--   Master         game-master/main.go: the handlers. Master.Guards and Master.Answers are about what
--                  they let through and what they answer.
--   Client.Socket  game/common/client/client.go: `WebSocketClient` with its two channels. `read_one`
--                  is one step of readingLoop, `take_outgoing` one of writingLoop. Client.Writing has
--                  the writing loops of all connections of a client; Socket.Fifo and Writing.Account
--                  are about these.
--   Client.Manager game/common/client/manager.go: `WebSocketManager` by the source's names. Pointers
--                  to clients are places in a store. Manager.Lookups, Calls, Closing, Ending, Open and
--                  Races are about these.
--   Farkle.Dice    game/farkle/internal/data/dice.go: `roll`, `roll_weighted_dice`.
--   Farkle.State, Farkle.Message, Farkle.Player  the other files of that folder and
--                  game/common/client/message.go. Player.Turns and Player.Drained put the reader of a
--                  player's client beside the game.
--   Farkle.Scoring game/farkle/internal/logic/scoring.go. Scoring.Rules states the rules on their
--                  own; Scoring.Correct, Scoring.Unordered, Scoring.Bounds and Scoring.Bust are
--                  about the code.
--   Farkle.Game    game/farkle/internal/logic/game.go. Game.Table has the operations on dice and
--                  `dice_selection`, Game.Turn has `turn_loop`, Game.Match `game_loop` and `play`.
--                  Game.Rolled, Selection, Books, Accounts, Rounds, Winner and Played are about these;
--                  Game.Hazards is about what goes wrong. Farkle.Protocol is a machine over the messages
--                  that says what a client is to hear; Game.Spoken, Game.Heard and Game.Conversed are
--                  about it.
--   Farkle.Lobby   game/farkle/internal/lobby/loop.go. Lobby.Ready is `waitForReady`; Lobby.Meeting is
--                  `runLobby` from the moment the second player has joined, with the moves of the two
--                  goroutines and the main loop in any order; Lobby.Opening is what comes before, with
--                  `waitForOtherPlayer` in Lobby.Joining; Lobby.Life puts them together with
--                  the game. Lobby.Worker is worker.go. Ready.Verdict, Ready.Dice, Meeting.Sides,
--                  Meeting.Fair, Meeting.Calm, Joining.First, Opening.Seats, Life.Over, Life.Sturdy
--                  and Worker.Settled are about these.
--   Farkle.Entry   game/farkle/internal/web/entry.go: `entry_handler`. Entry.Admission is about it.
--   Server         game/farkle/main.go and game-master/main.go. Server.Config is both files
--                  internal/config/config.go over the library viper, Server.Startup `main` of both
--                  servers; Server.Ending, Cleaning, Presence and Draining are about how they
--                  end.
--   Journey        the parts together: the game master, the worker, the token and the entry handler;
--                  Journey.Join has the second player, Journey.Play the way from the requests to the
--                  end of the game, Journey.Life the one to the end of the lobby.
--
-- How it is modelled. State is passed on explicitly: `Table` is what a turn works on, `Game` the
-- whole game. What the game receives is a script of inputs, each with the time at which it comes;
-- random numbers are a stream. Messages that are sent are logged in order. A panic is a result of its
-- own. A loop that waits for players runs on fuel, one unit for each round, and has a result of its
-- own where the fuel or the script ends. The search of the pool for a connection that is ready is such
-- a loop: with n connections of which one stays ready it needs at most 2n - 1 looks, once no
-- other search moves the cursor, which can wrap around in between. The goroutines of a publisher and of a consumer take one event at a time.
-- The loops over dice and counts are structural recursion.
--
-- Numbers. Scores, targets and times are natural numbers: the code only adds to a score and never
-- subtracts from it. A time that is left can be negative, which is a test of its own (`is_overdue`).
-- The counts of a hand are an association list, as the source's map.
--
-- What is not modelled. Locks: an operation between a lock and its unlock is one step, and
-- Client.Manager.Races looks at what can come between two of them. Goroutines are modelled one beside
-- another where a module says so (Farkle.Player.Turns, Client.Writing, Farkle.Lobby.Meeting); elsewhere
-- their steps are events from outside. JSON, sockets, RabbitMQ and JWT are outside: RabbitMQ is a
-- stream of the answers of its library (Queue.Amqp), the JWT library a record `Jwt` of functions with
-- `IsDocumented` for what its documentation promises. Of viper there is a record `Viper` of the
-- calls that are used, and of the HTTP servers only what their handlers do. SendJson
-- (common/web/json.go) and the Python clients are left out.
pub mod Prelude
pub mod Connect
pub mod Auth
pub mod Client
pub mod Queue
pub mod Farkle
pub mod Master
pub mod Server
pub mod Journey
