-- ===== src/Lib.antt =====
-- A model of the backend of the World Cup prediction game. Users predict
-- group rankings and knockout rounds; an administrator records matches and finalizes groups; the
-- backend moves the standings, fills the bracket and pays points.
--
-- Parts and files. Paths of the program are from the repository's root.
--   Base             Boolean tests, lists, dictionaries, integers and int32 (Base/Int): what Go's
--                    operators on int32 do, with the wrap around written out.
--   Entity           core/entity/entities.go: the domain types.
--   Rows             adapters/storage/jet/wcwcpp/public/model and db/schema.sql: a row of each table,
--                    and `Db`, the database.
--   Sql              What the program uses of database/sql and of the server. `Action A` is a
--                    statement or a sequence of them: it takes a `World` (the database and the
--                    faults to come) and gives a result or an error, and the world after it.
--                    `in_tx` is BeginTx, the deferred Rollback and Commit. Sql/Hoare and Sql/Post
--                    have the rules for reasoning about actions: `Ensures` for what holds whether an
--                    action succeeds or not, `Yields` for what holds when it succeeds, `Keeps` for
--                    what it preserves. Sql/Order and Sql/Keys are ORDER BY, LIMIT and OFFSET, and
--                    Sql/Clash what the server says to a row that breaks a constraint.
--   Storage/Search   adapters/storage/postgres/search.go: GetContestBySlug, GetSubcontestBySlug and
--                    GetCountryCodeToIDMap.
--   Storage/Award    The statement that adds points to a user, in
--                    adapters/storage/postgres/contest.go.
--   Storage/Existing, Storage/Score, Storage/Standings, Storage/Knockout, Storage/UpdateMatch
--                    UpdateMatch of contest.go: finding and merging the match, the arithmetic of a
--                    group score, the group standings, the bracket and its rewards, and the method.
--   Storage/FinalizeGroup  FinalizeGroupRankings of contest.go.
--   Storage/ThirdPlace     FinalizeThirdPlaceQualifier of contest.go.
--   Storage/Picks          CreateGroupPicks and CreateKnockoutPicks of
--                    adapters/storage/postgres/picks.go, with the constraints of db/schema.sql on
--                    their rows.
--   Storage/Tally    The group table that the matches give, and that the code keeps it: an abstract
--                    specification, not a part of the program.
--   Storage/Leaderboard    adapters/storage/postgres/leaderboard.go.
--   Storage/Users          adapters/storage/postgres/user.go, with the cascades of a deletion.
--   Storage/Contests       The rest of contest.go but for its lists of matches; Storage/Contests/Setup
--                    has the statements that set up a contest.
--   Storage/Lists          The lists of matches of contest.go and the lists of picks.go.
--   Storage/Postgres       The repositories as the interfaces that the services take.
--   Ports            ports/repositories.go: each repository interface as a record of actions.
--   Service          core/service: PicksService, ContestService (with the matches that it generates),
--                    MatchService, LeaderboardService, AuthService and UsersService, each a section
--                    over the repository that it takes. `time.Now()`, `slug.Make`, `rand.Read` and
--                    the signing of tokens are arguments.
--   Handler          adapters/handler: each handler over the service and the repository that it
--                    takes, with the messages of api/v1 (Handler/Messages) and the wrappers of
--                    adapters/interceptor/auth.go (Handler/Interceptor). `jwt.Parse` is an argument.
--   Server           What cmd/server/main.go puts together, each request that can change the database,
--                    `CreateContest` among them, and the states that a list of requests reaches.
--   Tests            Concrete databases and runs.
-- UpdateMatch and the two finalizing methods meet in the tables: UpdateMatch writes group standings,
-- knockout standings and matches, FinalizeGroupRankings reads matches and picks and sets ranks, and
-- FinalizeThirdPlaceQualifier reads the ranks. All of them pay into contest_standings.
--
-- Faults. `World.faults` says for each statement, begin and commit to come whether the server refuses
-- it, and with what text. A theorem about all worlds is about a failure at any point. A refused
-- commit leaves the database of before the transaction.
--
-- Loops are structural recursion on lists; there is no fuel. Numbers of Go's `int` and of `int32` are
-- integers; conversions to int32 and arithmetic on int32 wrap at 2 ^ 32. The columns are INT, and the
-- server refuses a sum that does not fit. UUIDs are numbers, since the code only compares them; that
-- their text reads back as itself is assumed, and the panic of MustParse on another text is left out.
-- A time is a number, 0 the zero time. The order in which Go runs through a map is a parameter.
--
-- ORDER BY is a stable sort, so that rows equal in all keys come in table order; the server is free
-- to choose. The order of texts in the database (`collation`), the identifiers that it makes, and the
-- answer of go-jet to an INSERT without rows are arguments. So are the orders of the two queries of
-- FinalizeThirdPlaceQualifier that have none of their own, `row_order` and `pick_order`, and what
-- becomes of a negative OFFSET (`bad_offset`): left out, or refused. A negative LIMIT is taken to be
-- left out by go-jet. A join on a table's key meets at most one row. The identifier in a token is the
-- text of a UUID, as in the tokens that the program signs.
--
-- Left out. Requests run one after the other; concurrent requests are not modelled. Any other
-- SELECT without ORDER BY gives rows in table order. go-jet is taken to make one struct for each
-- value of the selected primary key, the first row's; it is written out where a query can give two
-- rows with one key, the predictions of FinalizeThirdPlaceQualifier. An identifier or a number
-- inside an error text is left out where it does not tell two errors apart. The HTTP server, its
-- codec and CORS, the scripts under cmd and the client of Google's tokens are not modelled; code
-- generated for messages and tables (pkg/api, adapters/storage/jet) has no behaviour of its own.
pub mod Base
pub mod Entity
pub mod Rows
pub mod Ports
pub mod Handler
pub mod Server
pub mod Service
pub mod Sql
pub mod Storage
mod Tests
