-- ===== src/Lib.antt =====
-- ZhuoStack: an administration system, with an API (apps/api, NestJS) and a web application
-- (apps/web, React). This library models the parts that decide who may act, and for how long.
--
-- Files, and the code that each is about:
-- Prelude: numbers, texts, lists, Boolean tests. Prelude/Keyed: lists whose items have a key.
--   Prelude/Action: a handler as a function from the state to a result and the new state; what was
--   written before a throw stays written.
-- Database/Client: what the code relies on of ioredis, Redis and JSON, as a record of operations
--   and laws; Database/Memory: an instance in memory. Database/Table: what it relies on of Prisma
--   for one table, with an instance in memory; Database/Unique: tables whose codes are unique.
-- Database/Redis: apps/api/src/database/redis.service.ts (get, set, compareAndSet, del, incr,
--   getdel, exists, delPattern, onModuleInit). Database/Redis/Strict: what its strict operations
--   do, with and without a connection; Database/Redis/Sweep: the loop of delPattern;
--   Database/Redis/Reliable: the operations while every reply arrives.
-- Auth/Session: apps/api/src/modules/auth/session.service.ts. Auth/Session/Keys: the keys of
--   different kinds differ. Auth/Session/Laws: the properties of sessions.
-- Auth/Duration: durationToSeconds of apps/api/src/modules/auth/auth-security.ts; Auth/Double: the
--   rounding of its product to a double.
-- Auth/Account: apps/api/src/modules/auth/auth.service.ts (register, login, refreshSession,
--   establishSession, verifyCaptcha, blacklistToken and the rest but getUserMenus), decryptPassword
--   of apps/api/src/modules/auth/rsa-key.service.ts, and validate of
--   apps/api/src/modules/auth/strategies/jwt.strategy.ts. Auth/Account/Captcha, Establish,
--   Login and Validate: their properties; Auth/Account/Closed: requests without a connection to
--   Redis.
-- Users: apps/api/src/modules/user/user.service.ts. Users/Counting and Users/Admins: the last
--   administrator.
-- Guards: apps/api/src/common/guards/permissions.guard.ts and roles.guard.ts. Guards/Laws: what
--   they let pass.
-- Trees: buildTree of apps/api/src/modules/system/dept/dept.service.ts, which the menus and the
--   authentication repeat. Trees/Chains: chains of parents; Trees/Depth: how deep the recursion
--   goes; Trees/Members: which rows a tree shows.
-- Depts: apps/api/src/modules/system/dept/dept.service.ts. Depts/Parents: no orphans.
-- Menus: apps/api/src/modules/system/menu/menu.service.ts. Menus/Cache and Changes: what its
--   cache holds. Menus/Visible: getUserMenus of apps/api/src/modules/auth/auth.service.ts;
--   Menus/Closure: its loops; Menus/Shown: which menus a user is shown.
-- Roles: apps/api/src/modules/system/role/role.service.ts. Posts:
--   apps/api/src/modules/system/post/post.service.ts. Roles/Laws, Posts/Laws: their properties.
-- Dicts: apps/api/src/modules/system/dict/dict.service.ts. Dicts/Laws: its cache.
-- Notifications: apps/api/src/modules/notification/notification.service.ts; Notifications/Query:
--   its paged lists. Notifications/Ownership, Status, Unread and Listing: its properties.
-- Files: apps/api/src/modules/system/file/file.service.ts; Files/Uploads: uploads by way of a
--   temporary file. Files/Keys and Files/Storage:
--   apps/api/src/modules/system/file/storage/file-storage.service.ts. Files/Addresses and Stored:
--   the texts of keys and addresses; Files/Download: an upload is read back; Files/Rows and
--   Ownership: whose files a request changes; Files/Places, Objects, Changes, Intact and Requests:
--   the steps of a removal and the objects behind the rows; Files/Hiding: a removal that fails part
--   of the way.
-- Web/ApiClient: the interceptors of apps/web/src/lib/api-client.ts, with the answers of the network
--   as steps. Web/ApiClient/Weights, Settling and Liveness: how many answers settle the requests of
--   a page; Web/ApiClient/Retried: how a session ends.
-- Web/Notices: apps/web/src/stores/notification-store.ts. Web/Notices/Recent: its properties.
-- Web/Progress: apps/web/src/stores/progress-store.ts, with its timers as steps.
--   Web/Progress/Timers: the invariant of the reachable states.
-- Web/Tabs: apps/web/src/stores/tabs-store.ts. Web/Tabs/Invariant and Closing: its properties.
-- Modules named Tests: the theorems at concrete states.
--
-- How they interact: the user service and the authentication work on one state (World), which
-- holds the connection to Redis, the table of users, the login log and the map of the last
-- refreshes. Both reach Redis through the session service and the Redis service, as the code does.
--
-- Conventions and bounds. A request runs as one sequence of steps; Promise.all runs its parts one
-- after another. What a request draws at random, and the time, are arguments. A statement on the
-- database does not fail, except where the file service saves or deletes rows, which an argument
-- decides; a command to Redis may fail at every step, and its reply may be lost. A key does not
-- expire within a request. Numbers are natural numbers; where the code subtracts,
-- the model tests the sign that the code tests, and the one product that can pass 2^53, a duration
-- in seconds, is rounded as the code's doubles are. Three loops take a number of turns: delPattern as
-- many as its iteration of SCAN has by the laws of RedisClient, buildTree as many levels as there
-- are rows, and the walk up the parents in getUserMenus one turn more than there are active
-- menus. Sweep, Depth and Closure show that these are enough. Every other loop is structural. The
-- timestamps of rows are left out, and so are log lines.
--
-- Not modelled: the shutdown of the Redis service, the drawing of the captcha and the loading of
-- RSA keys, the paged list of users, and the services of the API for monitoring, logs and AI. What
-- a promise of the web application is rejected with is left out. Pages, controllers and transfer
-- objects are declarative glue.
pub mod Prelude
pub mod Web
pub mod Database
pub mod Auth
pub mod Users
pub mod Files
pub mod Guards
pub mod Trees
pub mod Depts
pub mod Menus
pub mod Roles
pub mod Posts
pub mod Dicts
pub mod Notifications
